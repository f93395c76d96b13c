-- ===== src/Client/Hits.antt =====
-- web/src/lib/client/search.ts, `searchMessages`: which messages are found, and their order.
use shatters.Common.{
  ℕ, ◌≤◌, Bool, false, not, ◌&&◌, ◌||◌, Option, none, some, List, [], ◌∷◌, Text, leb,
}
use shatters.Store.{StoredMessage}
use shatters.Client.Search.{Unicode, SearchHit, index_of, is_deleted, normalize}

-- Whether a hit passes the test.
abbrev pub some_hit : (SearchHit → Bool) → List SearchHit → Bool
some_hit test [] = false
some_hit test (h ∷ hits) = test h || some_hit test hits

-- The test of the hit at the place where the needle is found first, if it is.
abbrev pub at_index : (SearchHit → Bool) → StoredMessage → Option ℕ → Bool
at_index test message none = false
at_index test message (some index) = test (record { message = message; index = index })

-- Whether a message that is not deleted has the needle in its body, and is a hit that passes the test.
abbrev pub some_found : Unicode → Text → (SearchHit → Bool) → List StoredMessage → Bool
some_found unicode needle test [] = false
some_found unicode needle test (m ∷ ms) =
    (not (is_deleted m) && at_index test m (index_of needle (normalize unicode m.body)))
    || some_found unicode needle test ms

-- Later messages first.
abbrev pub NoneAfter : ℕ → List SearchHit → Type 0
NoneAfter t [] = Unit
NoneAfter t (h ∷ hits) = (h.message.timestamp ≤ t) × NoneAfter t hits

abbrev pub IsNewestFirst : List SearchHit → Type 0
IsNewestFirst [] = Unit
IsNewestFirst (h ∷ hits) = NoneAfter h.message.timestamp hits × IsNewestFirst hits

abbrev newer : SearchHit → SearchHit → Bool
newer a b = leb b.message.timestamp a.message.timestamp
