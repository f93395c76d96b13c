-- ===== src/Identity/Examples.antt =====
-- Signatures of a concrete device.
use shatters.Common.{◌≢◌, [], ◌∷◌}
use shatters.Crypto.Toy.{toy_pair, block}
use shatters.Identity.{Identity, auth_proof_message, identity_dh_message, signed_prekey_message}
use shatters.Identity.Domains.{messages_apart}

abbrev device : Identity
device = record { signing = toy_pair 13; dh = toy_pair 14 }

messages_apart_example :
    (auth_proof_message (1 ∷ []) ≢ identity_dh_message (block 2))
    × (auth_proof_message (1 ∷ []) ≢ signed_prekey_message (block 3) 5)
    × (identity_dh_message (block 2) ≢ signed_prekey_message (block 3) 5)
messages_apart_example = messages_apart (1 ∷ []) (block 2) (block 3) 5
