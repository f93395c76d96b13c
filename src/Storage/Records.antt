-- ===== src/Storage/Records.antt =====
-- web/src/lib/storage/vault.ts: an unlocked vault is a map from names to values.
use shatters.Common.{
  ok, or_throw, ◌>>=◌, ◌≡◌, refl, sym, ap, subst, ◌∙◌, Bool, true, false, none, some, List, [], ◌∷◌,
  Text, length, All, text_eq, text_eq_iff, if◌then◌else◌, lookup, assign, remove_key, lookup-assign,
  lookup-remove_key, utf8_encode,
}
use shatters.Bytes.{Bytes}
use shatters.Crypto.{Crypto, IsSound}
use shatters.Storage.Adapter.{MemoryAdapter, get, set, delete_entry}
use shatters.Storage.Vault.{
  Result, unauthentic, Vault, params_key, record_key, seal, require_key, put, open_framed,
  get_record, delete_record,
}
use shatters.Storage.Sealing.{
  record_key-eq, record_key-params_key, get-set, get-delete_entry, get_record-unlocked,
  open_framed-sealed,
}

-- One change of a vault.
pub data Operation : Type 0 where
  putting : (name : Text) (value nonce : Bytes) → Operation
  deleting : (name : Text) → Operation

abbrev pub perform : Crypto → Operation → Vault → Result Vault
perform c (putting name value nonce) vault = put c name value nonce vault
perform c (deleting name) vault = delete_record name vault

abbrev pub perform_all : Crypto → List Operation → Vault → Result Vault
perform_all c [] vault = ok vault
perform_all c (op ∷ ops) vault = perform c op vault >>= λ next. perform_all c ops next

-- The same on a plain map.
abbrev pub expected : Operation → List (Text × Bytes) → List (Text × Bytes)
expected (putting name value nonce) m = assign name value m
expected (deleting name) m = remove_key name m

abbrev pub expected_all : List Operation → List (Text × Bytes) → List (Text × Bytes)
expected_all [] m = m
expected_all (op ∷ ops) m = expected_all ops (expected op m)

abbrev pub HasNonce : Operation → Type 0
HasNonce (putting name value nonce) = length nonce ≡ 24
HasNonce (deleting name) = Unit

module _ (c : Crypto) where
  -- What an unlocked vault holds.
  pub record Represents (key : Bytes) (vault : Vault) (m : List (Text × Bytes)) : Type 0 where
    pub unlocked : vault.key ≡ some key
    pub reads : (name : Text) → get_record c name vault ≡ ok (lookup name m)

  -- A change of an unlocked vault succeeds and keeps the key, the parameters and their entry.
  pub record Follows (key : Bytes) (vault next : Vault) (m : List (Text × Bytes)) : Type 0 where
    pub represents : Represents key next m
    pub same_params : next.params ≡ vault.params
    pub same_entry : get params_key next.adapter ≡ get params_key vault.adapter

module _ (c : Crypto) (sound : IsSound c) where
  pub open_framed-seal :
      (name : Text) (value nonce key : Bytes)
      → length nonce ≡ 24
      → open_framed c name key (some (seal c name value nonce key)) ≡ ok (some value)
  open_framed-seal name value nonce key h =
      open_framed-sealed c name name value nonce key key sound h
      ∙ ap (λ o. or_throw (unauthentic name) o >>= λ v. ok (some v))
          (sound.decrypt_encrypt value (utf8_encode name) nonce key)

  -- What is read after a value was sealed under a name.
  reads-set :
      (name other : Text) (value nonce key : Bytes) (adapter : MemoryAdapter)
      (m : List (Text × Bytes))
      → length nonce ≡ 24
      → open_framed c other key (get (record_key other) adapter) ≡ ok (lookup other m)
      → open_framed c other key
          (get (record_key other) (set (record_key name) (seal c name value nonce key) adapter))
        ≡ ok (lookup other (assign name value m))
  reads-set name other value nonce key adapter m h before =
      rw
        (
          get-set (record_key other) (record_key name) (seal c name value nonce key) adapter,
          record_key-eq name other,
          lookup-assign other name value m,
        )
        (go (text_eq name other) refl)
    where
      go :
          (b : Bool)
          → text_eq name other ≡ b
          → open_framed c other key
              (if b then some (seal c name value nonce key) else get (record_key other) adapter)
            ≡ ok (if b then some value else lookup other m)
      go false e = before
      go true e =
          subst (λ n. open_framed c n key (some (seal c name value nonce key)) ≡ ok (some value))
            ((text_eq_iff name other).0 e) (open_framed-seal name value nonce key h)

  reads-delete :
      (name other : Text) (key : Bytes) (adapter : MemoryAdapter) (m : List (Text × Bytes))
      → open_framed c other key (get (record_key other) adapter) ≡ ok (lookup other m)
      → open_framed c other key (get (record_key other) (delete_entry (record_key name) adapter))
        ≡ ok (lookup other (remove_key name m))
  reads-delete name other key adapter m before =
      rw
        (
          get-delete_entry (record_key other) (record_key name) adapter,
          record_key-eq name other,
          lookup-remove_key other name m,
        )
        (go (text_eq name other))
    where
      go :
          (b : Bool)
          → open_framed c other key (if b then none else get (record_key other) adapter)
            ≡ ok (if b then none else lookup other m)
      go false = before
      go true = unfold open_framed in refl

  pub put-Follows :
      (name : Text) (value nonce key : Bytes) (vault : Vault) (m : List (Text × Bytes))
      → length nonce ≡ 24
      → Represents c key vault m
      → (next : Vault) × (put c name value nonce vault ≡ ok next)
        × Follows c key vault next (assign name value m)
  unfolding put require_key
  put-Follows name value nonce key vault m h r =
      let next : Vault = record vault {
        adapter = set (record_key name) (seal c name value nonce key) vault.adapter;
      } in
      (
        next,
        simp r.unlocked refl,
        record {
          represents = record {
            unlocked = r.unlocked;
            reads = λ other.
                get_record-unlocked c other key next r.unlocked
                ∙ reads-set name other value nonce key vault.adapter m h
                    (sym (get_record-unlocked c other key vault r.unlocked) ∙ r.reads other);
          };
          same_params = refl;
          same_entry =
              rw
                (
                  get-set params_key (record_key name) (seal c name value nonce key) vault.adapter,
                  record_key-params_key name,
                )
                refl;
        },
      )

  delete-Follows :
      (name : Text) (key : Bytes) (vault : Vault) (m : List (Text × Bytes))
      → Represents c key vault m
      → (next : Vault) × (delete_record name vault ≡ ok next)
        × Follows c key vault next (remove_key name m)
  unfolding delete_record require_key
  delete-Follows name key vault m r =
      let next : Vault = record vault { adapter = delete_entry (record_key name) vault.adapter } in
      (
        next,
        simp r.unlocked refl,
        record {
          represents = record {
            unlocked = r.unlocked;
            reads = λ other.
                get_record-unlocked c other key next r.unlocked
                ∙ reads-delete name other key vault.adapter m
                    (sym (get_record-unlocked c other key vault r.unlocked) ∙ r.reads other);
          };
          same_params = refl;
          same_entry =
              rw
                (
                  get-delete_entry params_key (record_key name) vault.adapter,
                  record_key-params_key name,
                )
                refl;
        },
      )

  perform-Follows :
      (op : Operation) (key : Bytes) (vault : Vault) (m : List (Text × Bytes))
      → HasNonce op
      → Represents c key vault m
      → (next : Vault) × (perform c op vault ≡ ok next) × Follows c key vault next (expected op m)
  perform-Follows (putting name value nonce) key vault m h r =
      put-Follows name value nonce key vault m h r
  perform-Follows (deleting name) key vault m h r = delete-Follows name key vault m r

  pub perform_all-Follows :
      (ops : List Operation) (key : Bytes) (vault : Vault) (m : List (Text × Bytes))
      → All HasNonce ops
      → Represents c key vault m
      → (last : Vault) × (perform_all c ops vault ≡ ok last)
        × Follows c key vault last (expected_all ops m)
  perform_all-Follows [] key vault m h r =
      (vault, refl, record { represents = r; same_params = refl; same_entry = refl })
  perform_all-Follows (op ∷ ops) key vault m h r =
      let (next, e, f) = perform-Follows op key vault m h.0 r in
      let (last, es, fs) = perform_all-Follows ops key next (expected op m) h.1 f.represents in
      (
        last,
        ap (λ o. o >>= λ n. perform_all c ops n) e ∙ es,
        record {
          represents = fs.represents;
          same_params = fs.same_params ∙ f.same_params;
          same_entry = fs.same_entry ∙ f.same_entry;
        },
      )

-- A vault that is unlocked and holds the values of a map refines it: any sequence of `put`, with nonces of
-- 24 bytes, and `delete` succeeds, and each name then reads as in the map after the same changes,
-- where what was put is what is read.
pub perform_all-Represents :
    (c : Crypto) (ops : List Operation) (key : Bytes) (vault : Vault) (m : List (Text × Bytes))
    → IsSound c
    → All HasNonce ops
    → Represents c key vault m
    → (last : Vault) × (perform_all c ops vault ≡ ok last)
      × Represents c key last (expected_all ops m)
perform_all-Represents c ops key vault m sound h r =
    let (last, e, f) = perform_all-Follows c sound ops key vault m h r in (last, e, f.represents)
