-- ===== src/Forward/Shards/Trace.antt =====
-- What was accepted and what ended, among the events of the shards.
use yukon_collector.Base.{◌≡◌, refl, ap, List, [], ◌∷◌, ◌++◌}
use yukon_collector.Forward.Shard.{QueuedItem}
use yukon_collector.Forward.Shards.{ShardEvent, accepts, ends}

unfoldable pub accepted_of : List ShardEvent → List QueuedItem
accepted_of [] = []
accepted_of (accepts item ∷ es) = item ∷ accepted_of es
accepted_of (ends item ∷ es) = accepted_of es

unfoldable pub ended_of : List ShardEvent → List QueuedItem
ended_of [] = []
ended_of (accepts item ∷ es) = ended_of es
ended_of (ends item ∷ es) = item ∷ ended_of es

pub accepted_of-accepts :
    (es : List ShardEvent) (item : QueuedItem)
    → accepted_of (es ++ accepts item ∷ []) ≡ accepted_of es ++ item ∷ []
unfolding accepted_of
accepted_of-accepts [] item = refl
accepted_of-accepts (accepts x ∷ es) item = ap (λ xs. x ∷ xs) (accepted_of-accepts es item)
accepted_of-accepts (ends x ∷ es) item = accepted_of-accepts es item

pub accepted_of-ends :
    (es : List ShardEvent) (item : QueuedItem) → accepted_of (es ++ ends item ∷ []) ≡ accepted_of es
unfolding accepted_of
accepted_of-ends [] item = refl
accepted_of-ends (accepts x ∷ es) item = ap (λ xs. x ∷ xs) (accepted_of-ends es item)
accepted_of-ends (ends x ∷ es) item = accepted_of-ends es item

pub ended_of-accepts :
    (es : List ShardEvent) (item : QueuedItem) → ended_of (es ++ accepts item ∷ []) ≡ ended_of es
unfolding ended_of
ended_of-accepts [] item = refl
ended_of-accepts (accepts x ∷ es) item = ended_of-accepts es item
ended_of-accepts (ends x ∷ es) item = ap (λ xs. x ∷ xs) (ended_of-accepts es item)

pub ended_of-ends :
    (es : List ShardEvent) (item : QueuedItem)
    → ended_of (es ++ ends item ∷ []) ≡ ended_of es ++ item ∷ []
unfolding ended_of
ended_of-ends [] item = refl
ended_of-ends (accepts x ∷ es) item = ended_of-ends es item
ended_of-ends (ends x ∷ es) item = ap (λ xs. x ∷ xs) (ended_of-ends es item)

pub accepted_of-append :
    (es fs : List ShardEvent) → accepted_of (es ++ fs) ≡ accepted_of es ++ accepted_of fs
unfolding accepted_of
accepted_of-append [] fs = refl
accepted_of-append (accepts item ∷ es) fs = ap (λ x. item ∷ x) (accepted_of-append es fs)
accepted_of-append (ends item ∷ es) fs = accepted_of-append es fs
