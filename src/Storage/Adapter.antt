-- ===== src/Storage/Adapter.antt =====
-- web/src/lib/storage/adapter.ts: `StorageAdapter`, by `MemoryAdapter`. The copies that it makes are not
-- seen, since a value of the model is never mutated.
use shatters.Common.{
  starts_with, Option, List, [], ◌∷◌, Text, if◌then◌else◌, lookup, assign, remove_key, sort,
}
use shatters.Bytes.{Bytes}

pub record MemoryAdapter : Type 0 where
  pub entries : List (Text × Bytes)

abbrev pub new_adapter : MemoryAdapter
new_adapter = record { entries = [] }

unfoldable pub get : Text → MemoryAdapter → Option Bytes
get key adapter = lookup key adapter.entries

unfoldable pub set : Text → Bytes → MemoryAdapter → MemoryAdapter
set key value adapter = record { entries = assign key value adapter.entries }

unfoldable pub delete_entry : Text → MemoryAdapter → MemoryAdapter
delete_entry key adapter = record { entries = remove_key key adapter.entries }

unfoldable pub matching : Text → List (Text × Bytes) → List Text
matching prefix [] = []
matching prefix ((key, value) ∷ entries) =
    if starts_with key prefix then key ∷ matching prefix entries else matching prefix entries

unfoldable pub keys : Text → MemoryAdapter → List Text
keys prefix adapter = sort (matching prefix adapter.entries)

unfoldable pub clear : MemoryAdapter → MemoryAdapter
clear adapter = new_adapter
