-- ===== src/Client/Examples.antt =====
-- One message, a query, and an account id, over tables of Unicode in which nothing has another form.
use shatters.Common.{
  refl, ◌++◌, arith, All, ℕ, zero, suc, ◌<◌, ◌≡◌, ◌↔◌, true, none, some, List, [], ◌∷◌, Text,
  length,
}
use shatters.Bytes.{Bytes, zeroes}
use shatters.Crypto.Toy.{toy}
use shatters.Identity.{account_domain, account_id}
use shatters.Store.{StoredMessage, incoming, delivered}
use shatters.Client.Search.{Unicode, Part, highlight_parts}
use shatters.Client.Highlight.{texts, highlight_parts-body}
use shatters.Client.Format.{are_id_units, format_account_id, normalize_account_id, without_spaces}
use shatters.Client.Accounts.{IsDigest, normalize_account_id-account_id}
use shatters.Client.AccountIds.{normalize_account_id_iff}

abbrev unchanged : Unicode
unchanged = record { nfd = λ text. text; to_lower_case = λ text. text }

abbrev hello : StoredMessage
hello = record {
  id = 49 ∷ [];
  conversation_id = 98 ∷ [];
  direction = incoming;
  body = 104 ∷ 105 ∷ 104 ∷ [];
  timestamp = 7;
  status = delivered;
  envelope_id = none;
  attachment = none;
  deleted_at = none;
  sender_id = none;
  reactions = none;
}

abbrev query : Text
query = 32 ∷ 104 ∷ []

abbrev dashes : ℕ → Text
dashes zero = []
dashes (suc n) = 45 ∷ dashes n

highlight_parts-body_example :
    (parts : List Part) × (highlight_parts unchanged hello.body query ≡ some parts)
    × (texts parts ≡ hello.body)
highlight_parts-body_example = highlight_parts-body unchanged hello.body query

normalize_account_id_iff_example :
    (normalize_account_id (32 ∷ dashes 43) ≡ some (dashes 43) ↔ (
      (without_spaces (32 ∷ dashes 43) ≡ dashes 43)
      × (length (dashes 43) ≡ 43)
      × (are_id_units (dashes 43) ≡ true)))
    × ((group_size : ℕ)
        → 0 < group_size
        → length (dashes 43) ≡ 43
        → are_id_units (dashes 43) ≡ true
        → normalize_account_id (format_account_id (dashes 43) group_size) ≡ some (dashes 43))
normalize_account_id_iff_example = normalize_account_id_iff (32 ∷ dashes 43) (dashes 43)

zeroes-small : (n : ℕ) → All (λ b. b < 256) (zeroes n)
zeroes-small zero = tt
zeroes-small (suc n) = (omega arith, zeroes-small n)

toy-IsDigest : (message : Bytes) → IsDigest (toy.hash_sha256 message)
toy-IsDigest message = (refl, (omega arith, zeroes-small 31))

normalize_account_id-account_id_example :
    (normalize_account_id (account_id toy (1 ∷ [])) ≡ some (account_id toy (1 ∷ [])))
    × ((group_size : ℕ)
        → 0 < group_size
        → normalize_account_id (format_account_id (account_id toy (1 ∷ [])) group_size)
          ≡ some (account_id toy (1 ∷ [])))
    × (account_id toy (1 ∷ []) ≡ account_id toy (2 ∷ [])
        → toy.hash_sha256 (account_domain ++ (1 ∷ []))
          ≡ toy.hash_sha256 (account_domain ++ (2 ∷ [])))
normalize_account_id-account_id_example =
    normalize_account_id-account_id toy (1 ∷ []) (2 ∷ []) toy-IsDigest
