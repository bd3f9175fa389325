-- ===== src/RateLimit/Clients/Trusted.antt =====
-- With a client IP header, the entry of the proxy in front of the collector is the one that counts.
use mathlib.Core.List.{reverse, reverse-append}
use yukon_collector.Base.{
  ℕ, ◌≡◌, refl, ap, sym, ◌∙◌, Bool, false, Option, List, [], ◌∷◌, ◌++◌, append_assoc, Bytes,
  is_empty,
}
use yukon_collector.Text.Space.{trim_space}
use yukon_collector.Text.Parts.{split, join}
use yukon_collector.Text.Parts.RoundTrip.{IsPart, split-part, split-last, join-last}
use yukon_collector.RateLimit.Clients.{first_entry, last_header_value, from_address, client_ip}

-- The entry behind the last comma counts, unless it is blank.
last_header_value-append :
    (s p : Bytes)
    → IsPart b',' p
    → is_empty (trim_space p) ≡ false
    → last_header_value (s ++ b',' ∷ p) ≡ trim_space p
unfolding last_header_value first_entry
last_header_value-append s p h k =
    ap (λ ps. first_entry (reverse ps)) (split-last b',' s p h)
    ∙ ap first_entry (reverse-append (split b',' s) (p ∷ []))
    ∙ rw k refl

-- On a line of its own, behind other lines or alone.
own_line :
    (lines : List Bytes) (p : Bytes)
    → IsPart b',' p
    → is_empty (trim_space p) ≡ false
    → last_header_value (join b',' (lines ++ p ∷ [])) ≡ trim_space p
unfolding last_header_value first_entry join
own_line [] p h k = ap (λ ps. first_entry (reverse ps)) (split-part b',' p h) ∙ rw k refl
own_line (l ∷ ls) p h k =
    ap last_header_value (join-last b',' l ls p)
    ∙ last_header_value-append (join b',' (l ∷ ls)) p h k

-- At the end of the last line.
same_line :
    (lines : List Bytes) (line p : Bytes)
    → IsPart b',' p
    → is_empty (trim_space p) ≡ false
    → last_header_value (join b',' (lines ++ (line ++ b',' ∷ p) ∷ [])) ≡ trim_space p
unfolding join
same_line [] line p h k = last_header_value-append line p h k
same_line (l ∷ ls) line p h k =
    ap last_header_value (
      join-last b',' l ls (line ++ b',' ∷ p)
      ∙ sym (append_assoc (join b',' (l ∷ ls)) (b',' ∷ line) (b',' ∷ p)))
    ∙ last_header_value-append (join b',' (l ∷ ls) ++ b',' ∷ line) p h k

module _ {Addr : Type 0} (split_host : Bytes → Option Bytes) (parse_addr : Bytes → Option Addr)
    (is4 : Addr → Bool) (addr_text : Addr → Bytes) (prefix_text : Addr → ℕ → Option Bytes)
    (client_ip_header : Bytes) (ipv6_prefix : ℕ) where
  -- With a client IP header, an entry without a comma that is not blank, and that the proxy adds as
  -- a line of its own or at the end of the last line, is the one that the request is keyed on,
  -- whatever lines the client sent before it and wherever the request comes from.
  pub client_ip_lem :
      (lines : List Bytes) (line p remote : Bytes)
      → is_empty client_ip_header ≡ false
      → IsPart b',' p
      → is_empty (trim_space p) ≡ false
      → (client_ip split_host parse_addr is4 addr_text prefix_text client_ip_header ipv6_prefix
            (record { header_lines = lines ++ p ∷ []; remote_addr = remote })
          ≡ from_address split_host parse_addr is4 addr_text prefix_text client_ip_header
              ipv6_prefix
              (trim_space p))
        × (client_ip split_host parse_addr is4 addr_text prefix_text client_ip_header ipv6_prefix
              (record { header_lines = lines ++ (line ++ b',' ∷ p) ∷ []; remote_addr = remote })
            ≡ from_address split_host parse_addr is4 addr_text prefix_text client_ip_header
                ipv6_prefix
                (trim_space p))
  unfolding client_ip
  client_ip_lem lines line p remote c h k =
      (rw (own_line lines p h k, c, k) refl, rw (same_line lines line p h k, c, k) refl)
