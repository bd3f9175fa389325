-- ===== src/Command/Redacting/Blocked.antt =====
-- cmd/otherlode-collector/main.go: what the setting of the redaction blocks.
use mathlib.Core.List.{Memᴰ}
use yukon_collector.Base.{
  ℕ, suc, ◌+◌, ◌≡◌, ◌≢◌, ◌↔◌, refl, sym, ap, ◌∙◌, ◌⊎◌, inl, inr, Bool-cases, Option-cases, Bool,
  true, false, Option, none, some, List, [], ◌∷◌, ◌++◌, Bytes, is_empty, is_empty_sound,
  is_empty_complete, bytes_eq, length, All, arith,
}
use yukon_collector.Text.Space.{trim_space}
use yukon_collector.Text.Parts.{split}
use yukon_collector.Processor.Redaction.{RedactionConfig, matches_any, blocks}
use yukon_collector.Command.Settings.{SettingError, bad_pattern, unparsable, ok, err, parse_bool}
use yukon_collector.Command.Settings.Outcome.{Yields}
use yukon_collector.Command.Redacting.{
  trim_return, compile_lines, resolve_redaction, redact_blocked_values, redact_all_literals,
}

parse_bool-nil : parse_bool [] ≡ none
unfolding parse_bool bytes_eq
parse_bool-nil = refl

-- The boolean is the one that the variable holds, or `false` where it is not set.
abbrev IsBoolean : Bytes → Bool → Type 0
IsBoolean raw b = ((raw ≡ []) × (b ≡ false)) ⊎ (parse_bool raw ≡ some b)

says : (raw : Bytes) (b : Bool) → IsBoolean raw b → (parse_bool raw ≡ some true) ↔ (b ≡ true)
says raw b (inl (q, e)) =
    (λ h. absurd (cc (h, ap parse_bool q, parse_bool-nil)), λ h. absurd (cc (h, e)))
says raw b (inr f) = (λ h. cc, λ h. cc)

readable_of :
    (raw : Bytes) (b : Bool)
    → IsBoolean raw b
    → (raw ≡ []) ⊎ ((all : Bool) × (parse_bool raw ≡ some all))
readable_of raw b (inl (q, e)) = inl q
readable_of raw b (inr f) = inr (b, f)

module _ (compile : Bytes → Option (Bytes → Bool)) where
  -- A line without its carriage return is blank, or a pattern that compiles.
  abbrev pub IsUsable : Bytes → Type 0
  IsUsable line =
      (trim_space (trim_return line) ≡ [])
      ⊎ ((re : Bytes → Bool) × (compile (trim_return line) ≡ some re))

  -- The line holds a pattern that matches the text.
  pub record IsHit (text line : Bytes) : Type 0 where
    pub re : Bytes → Bool
    pub not_blank : trim_space (trim_return line) ≢ []
    pub compiled : compile (trim_return line) ≡ some re
    pub hit : re text ≡ true

  abbrev pub IsMatched : List Bytes → Bytes → Type 0
  IsMatched lines text = (line : Bytes) × Memᴰ line lines × IsHit text line

  -- The first line that does not compile.
  pub record FirstBad (lines : List Bytes) : Type 0 where
    pub before : List Bytes
    pub line : Bytes
    pub behind : List Bytes
    pub split_at : lines ≡ before ++ line ∷ behind
    pub good : All IsUsable before
    pub not_blank : trim_space (trim_return line) ≢ []
    pub bad : compile (trim_return line) ≡ none

  -- The patterns match what some line matches, and no line was left out.
  record IsRead (lines : List Bytes) (res : List (Bytes → Bool)) : Type 0 where
    usable : All IsUsable lines
    sound : (text : Bytes) → matches_any res text ≡ true → IsMatched lines text
    complete : (text : Bytes) → IsMatched lines text → matches_any res text ≡ true

  skipped :
      (line : Bytes) (lines : List Bytes) (res : List (Bytes → Bool))
      → trim_space (trim_return line) ≡ []
      → IsRead lines res
      → IsRead (line ∷ lines) res
  skipped line lines res b v = record {
    usable = (inl b, v.usable);
    sound = λ text h. let (l, m, k) = v.sound text h in (l, Memᴰ.tail m, k);
    complete = λ text (l, m, k). elim m [
      | Memᴰ.head e ↦ absurd (k.not_blank (ap (λ t. trim_space (trim_return t)) e ∙ b))
      | Memᴰ.tail n ↦ v.complete text (l, n, k)
    ];
  }

  added :
      (line : Bytes) (lines : List Bytes) (re : Bytes → Bool) (res : List (Bytes → Bool))
      → trim_space (trim_return line) ≢ []
      → compile (trim_return line) ≡ some re
      → IsRead lines res
      → IsRead (line ∷ lines) (re ∷ res)
  unfolding matches_any
  added line lines re res b c v = record {
    usable = (inr (re, c), v.usable);
    sound = λ text h. elim (Bool-cases (re text)) [
      | inl e ↦ (line, Memᴰ.head refl, record { re = re; not_blank = b; compiled = c; hit = e })
      | inr e ↦ let (l, m, k) = v.sound text (ground arith) in (l, Memᴰ.tail m, k)
    ];
    complete = λ text (l, m, k). elim m [
      | Memᴰ.head e ↦
          let same : some k.re ≡ some re =
            sym k.compiled ∙ ap (λ t. compile (trim_return t)) e ∙ c in
          let hit : re text ≡ true = cc (same, k.hit) in rw hit refl
      | Memᴰ.tail n ↦ ground (arith, v.complete text (l, n, k))
    ];
  }

  behind :
      (line : Bytes) (lines : List Bytes) → IsUsable line → FirstBad lines → FirstBad (line ∷ lines)
  behind line lines u b = record {
    before = line ∷ b.before;
    line = b.line;
    behind = b.behind;
    split_at = ap (λ ls. line ∷ ls) b.split_at;
    good = (u, b.good);
    not_blank = b.not_blank;
    bad = b.bad;
  }

  compile_lines_lem :
      (i : ℕ) (lines : List Bytes)
      → ((res : List (Bytes → Bool)) × (compile_lines compile i lines ≡ ok res) × IsRead lines res)
        ⊎ ((b : FirstBad lines) × (compile_lines compile i lines
              ≡ err (bad_pattern redact_blocked_values (i + length b.before))))
  unfolding compile_lines behind
  compile_lines_lem i [] = inl (
    [],
    refl,
    record {
      usable = _;
      sound = λ text h. absurd (unfold matches_any in cc h);
      complete = λ text (l, m, k). elim m [ ];
    },
  )
  compile_lines_lem i (line ∷ lines) =
      let here = trim_return line in
      elim (Bool-cases (is_empty (trim_space here))) [
        | inl b ↦ elim (compile_lines_lem (suc i) lines) [
          | inl (res, e, v) ↦
              inl (res, rw (b, e) refl, skipped line lines res (is_empty_sound _ b) v)
          | inr (w, e) ↦ inr (
            behind line lines (inl (is_empty_sound _ b)) w,
            rw (b, e) (ap (λ n. err (bad_pattern redact_blocked_values n)) (omega arith)),
          )
        ]
        | inr b ↦ elim (Option-cases (compile here)) [
          | inl c ↦ inr (
            record {
              before = [];
              line = line;
              behind = lines;
              split_at = refl;
              good = _;
              not_blank = is_empty_complete _ b;
              bad = c;
            },
            rw (b, c) (ap (λ n. err (bad_pattern redact_blocked_values n)) (omega arith)),
          )
          | inr (re, c) ↦ elim (compile_lines_lem (suc i) lines) [
            | inl (res, e, v) ↦
                inl
                  (re ∷ res, rw (b, c, e) refl, added line lines re res (is_empty_complete _ b) c v)
            | inr (w, e) ↦ inr (
              behind line lines (inr (re, c)) w,
              rw (b, c, e) (ap (λ n. err (bad_pattern redact_blocked_values n)) (omega arith)),
            )
          ]
        ]
      ]

  -- What the variables ask for. A text is blocked if all are, or if a line's pattern matches it.
  pub record IsAsked (blocked_raw all_raw : Bytes) (cfg : RedactionConfig) : Type 0 where
    pub readable : (all_raw ≡ []) ⊎ ((all : Bool) × (parse_bool all_raw ≡ some all))
    pub usable : All IsUsable (split b'\n' blocked_raw)
    pub blocked :
        (text : Bytes)
        → (blocks cfg text ≡ true)
          ↔ ((parse_bool all_raw ≡ some true) ⊎ IsMatched (split b'\n' blocked_raw) text)

  -- What an error is about.
  pub data IsFault (blocked_raw all_raw : Bytes) (e : SettingError) : Type 0 where
    pattern_fault :
        (b : FirstBad (split b'\n' blocked_raw))
        → e ≡ bad_pattern redact_blocked_values (1 + length b.before)
        → IsFault blocked_raw all_raw e
    boolean_fault :
        All IsUsable (split b'\n' blocked_raw)
        → all_raw ≢ []
        → parse_bool all_raw ≡ none
        → e ≡ unparsable redact_all_literals
        → IsFault blocked_raw all_raw e

  IsAsked-IsRead :
      (blocked_raw all_raw : Bytes) (res : List (Bytes → Bool)) (all : Bool)
      → IsBoolean all_raw all
      → IsRead (split b'\n' blocked_raw) res
      → IsAsked blocked_raw all_raw (record { blocked_values = res; all_literals = all })
  unfolding blocks
  IsAsked-IsRead blocked_raw all_raw res true p v = record {
    readable = readable_of all_raw true p;
    usable = v.usable;
    blocked = λ text. (λ h. inl ((says all_raw true p).1 refl), λ h. refl);
  }
  IsAsked-IsRead blocked_raw all_raw res false p v = record {
    readable = readable_of all_raw false p;
    usable = v.usable;
    blocked = λ text. (
      λ h. inr (v.sound text h),
      λ h. elim h [ inl q ↦ absurd (cc ((says all_raw false p).0 q)) | inr m ↦ v.complete text m ],
    );
  }

  -- The redaction that starts the program blocks exactly the texts that the variables ask for: all
  -- of them where the boolean is true, and otherwise those that the pattern of some line matches,
  -- where a line that is blank is skipped and no other is left out. It does not start on a pattern
  -- that does not compile, the first of which the error names by its line, counted from 1; nor on a
  -- boolean that is set and cannot be read.
  pub resolve_redaction_lem :
      (blocked_raw all_raw : Bytes)
      → Yields
          (IsAsked blocked_raw all_raw)
          (IsFault blocked_raw all_raw)
          (resolve_redaction compile blocked_raw all_raw)
  unfolding resolve_redaction
  resolve_redaction_lem blocked_raw all_raw = elim (compile_lines_lem 1 (split b'\n' blocked_raw)) [
    | inr (b, e) ↦ rw e (inr (_, refl, pattern_fault b refl))
    | inl (res, e, v) ↦ rw e (elim (Bool-cases (is_empty all_raw)) [
      | inl q ↦ rw q (
          inl (
            _,
            refl,
            IsAsked-IsRead blocked_raw all_raw res false (inl (is_empty_sound _ q, refl)) v,
          ))
      | inr q ↦ elim (Option-cases (parse_bool all_raw)) [
        | inl f ↦ rw (q, f) (inr (_, refl, boolean_fault v.usable (is_empty_complete _ q) f refl))
        | inr (all, f) ↦
            rw (q, f) (inl (_, refl, IsAsked-IsRead blocked_raw all_raw res all (inr f) v))
      ]
    ])
  ]
