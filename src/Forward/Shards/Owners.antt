-- ===== src/Forward/Shards/Owners.antt =====
-- The items of one instance among those that the shards hold.
use yukon_collector.Base.{
  ℕ, suc, ◌+◌, ◌<◌, ◌≤◌, ◌≡◌, ◌≢◌, ◌⊎◌, inl, inr, refl, sym, ap, ◌∙◌, Bool, true, ◌&&◌, some, List,
  [], ◌∷◌, ◌++◌, map, length, append_assoc, append-nil, All, Bool-cases, bytes_eq, bytes_eq_sound,
  if◌then◌else◌, arith,
}
use yukon_collector.Forward.Instance.{Instance, shard_key, shard_index}
use yukon_collector.Forward.Shard.{QueuedItem}
use yukon_collector.Forward.Worker.{System}
use yukon_collector.Forward.Shards.{GoesTo}
use yukon_collector.Forward.Shards.Routing.{pending, RoutedFrom}

abbrev pub is_owned : Instance → QueuedItem → Bool
is_owned o item =
    bytes_eq o.namespace item.owner.namespace
    && (bytes_eq o.service item.owner.service && bytes_eq o.id item.owner.id)

-- The items of one instance, in their order.
unfoldable pub only : Instance → List QueuedItem → List QueuedItem
only o [] = []
only o (item ∷ items) = if is_owned o item then item ∷ only o items else only o items

unfoldable pub all_pending : List System → List QueuedItem
all_pending [] = []
all_pending (s ∷ ss) = pending s ++ all_pending ss

is_owned_sound : (o : Instance) (item : QueuedItem) → is_owned o item ≡ true → o ≡ item.owner
is_owned_sound o item h = ground (
  arith,
  bytes_eq_sound o.namespace item.owner.namespace,
  bytes_eq_sound o.service item.owner.service,
  bytes_eq_sound o.id item.owner.id,
)

pub only-append :
    (o : Instance) (xs ys : List QueuedItem) → only o (xs ++ ys) ≡ only o xs ++ only o ys
unfolding only
only-append o [] ys = refl
only-append o (x ∷ xs) ys = ground (arith, only-append o xs ys)

all_pending-append :
    (ss ts : List System) → all_pending (ss ++ ts) ≡ all_pending ss ++ all_pending ts
unfolding all_pending
all_pending-append [] ts = refl
all_pending-append (s ∷ ss) ts =
    ap (λ x. pending s ++ x) (all_pending-append ss ts)
    ∙ sym (append_assoc (pending s) (all_pending ss) (all_pending ts))

pub zero_add : (n : ℕ) → 0 + n ≡ n
zero_add n = omega arith

module _ (n i : ℕ) (o : Instance) (mine : shard_index (shard_key o) n ≡ some i) where
  only-elsewhere : (j : ℕ) (xs : List QueuedItem) → i ≢ j → All (GoesTo n j) xs → only o xs ≡ []
  unfolding only
  only-elsewhere j [] ne h = refl
  only-elsewhere j (x ∷ xs) ne (here_x, h) = elim (Bool-cases (is_owned o x)) [
    | inl e ↦ absurd (ne (cc (is_owned_sound o x e)))
    | inr e ↦ rw e (only-elsewhere j xs ne h)
  ]

  -- No shard but the one at `i` holds an item of the instance.
  only-others :
      (k : ℕ) (ss : List System)
      → (i < k) ⊎ (k + length ss ≤ i)
      → RoutedFrom n k ss
      → only o (all_pending ss) ≡ []
  unfolding only all_pending
  only-others k [] apart h = refl
  only-others k (s ∷ ss) apart ((_, own), rest) =
      rw
        (
          only-append o (pending s) (all_pending ss),
          only-elsewhere k (pending s) (λ e. ground arith) own,
        )
        (only-others (suc k) ss (ground arith) rest)

pub only_cons :
    (o : Instance) (item : QueuedItem) (xs : List QueuedItem)
    → only o (item ∷ xs) ≡ (if is_owned o item then item ∷ only o xs else only o xs)
unfolding only
only_cons o item xs = refl

pub only_nil : (o : Instance) → only o [] ≡ []
unfolding only
only_nil o = refl

placed :
    (o : Instance) (item : QueuedItem) (n i : ℕ)
    → is_owned o item ≡ true
    → GoesTo n i item
    → shard_index (shard_key o) n ≡ some i
placed o item n i e place = rw (is_owned_sound o item e) place

-- The queue of an instance while one shard changes: what stands before and behind the shard's items.
module _ (n : ℕ) (before behind : List System) where
  abbrev pub around : List QueuedItem → List QueuedItem
  around xs = all_pending before ++ (xs ++ all_pending behind)

  pub only-arrives :
      (xs : List QueuedItem) (item : QueuedItem) (o : Instance)
      → RoutedFrom n (suc (0 + length before)) behind
      → GoesTo n (length before) item
      → only o (around (xs ++ item ∷ []))
        ≡ (if is_owned o item then only o (around xs) ++ item ∷ [] else only o (around xs))
  only-arrives xs item o rest place = elim (Bool-cases (is_owned o item)) [
    | inl e ↦
        let mine = placed o item n (length before) e place in
        let gone =
          only-others n (length before) o mine (suc (0 + length before)) behind (inl (omega arith))
            rest in
        simp (e, only-append, only_cons, only_nil, gone, append-nil, append_assoc)
    | inr e ↦ simp (e, only-append, only_cons, only_nil, append-nil, append_assoc)
  ]

  pub only-departs :
      (xs : List QueuedItem) (item : QueuedItem) (o : Instance)
      → RoutedFrom n 0 before
      → GoesTo n (length before) item
      → only o (around (item ∷ xs))
        ≡ (if is_owned o item then item ∷ only o (around xs) else only o (around xs))
  only-departs xs item o front place = elim (Bool-cases (is_owned o item)) [
    | inl e ↦
        let mine = placed o item n (length before) e place in
        let gone = only-others n (length before) o mine 0 before (inr (omega arith)) front in
        simp (e, only-append, only_cons, gone)
    | inr e ↦ simp (e, only-append, only_cons)
  ]

pub all_pending-middle :
    (before : List System) (s : System) (behind : List System)
    → all_pending (before ++ s ∷ behind) ≡ around 0 before behind (pending s)
unfolding all_pending
all_pending-middle before s behind = all_pending-append before (s ∷ behind)

pub all_pending-map :
    (f : System → System) (ss : List System)
    → ((s : System) → pending (f s) ≡ pending s)
    → all_pending (map f ss) ≡ all_pending ss
unfolding all_pending
all_pending-map f [] h = refl
all_pending-map f (s ∷ ss) h = rw (h s, all_pending-map f ss h)
