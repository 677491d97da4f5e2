-- ===== src/Naming.antt =====
-- apps/qdrant_core/naming.py: the collection name of a bot, and the key of its upload lock.
pub mod Collisions
pub mod Separation
pub mod LockKeys
use qdrant_database.Prelude.{
  ℕ, ◌+◌, ◌*◌, ◌-◌, List, ◌∷◌, ◌++◌, Text, codes, encode, is_empty, ltb, if◌then◌else◌,
}
use qdrant_database.Errors.{value_error, other}
use qdrant_database.Exec.{Outcome, ok, raised, and_then}
use qdrant_database.Tenants.{validate_slug}

-- The f-string of `collection_name`.
abbrev pub joined_name : Text → Text → Text
joined_name tenant_id bot_id = codes "t_" ++ (tenant_id ++ (codes "__b_" ++ bot_id))

unfoldable pub collection_name : Text → Text → Outcome Text
collection_name tenant_id bot_id =
    and_then (validate_slug tenant_id)
      λ _. and_then (validate_slug bot_id) λ _. ok (joined_name tenant_id bot_id)

-- A signed integer; `negsuc n` is -(n + 1).
pub data ℤ : Type 0 where
  pos : ℕ → ℤ
  negsuc : ℕ → ℤ

-- One `i` of `struct.unpack(">ii", …)`: four bytes, big-endian, in two's complement.
unfoldable pub unpack_int : ℕ → ℕ → ℕ → ℕ → ℤ
unpack_int a b c d =
    let u = ((a * 256 + b) * 256 + c) * 256 + d in
    if ltb u 2147483648 then pos u else negsuc (4294967295 - u)

-- `struct.unpack(">ii", digest[:8])`; it wants eight bytes.
unfoldable pub unpack_keys : List ℕ → Outcome (ℤ × ℤ)
unfolding unpack_int
unpack_keys (a ∷ b ∷ c ∷ d ∷ e ∷ f ∷ g ∷ h ∷ rest) = ok (unpack_int a b c d, unpack_int e f g h)
unpack_keys digest = raised (other (codes "error"))

-- The text that is hashed.
abbrev pub lock_text : Text → Text → Text → Text
lock_text tenant_id bot_id doc_id = tenant_id ++ (codes "|" ++ (bot_id ++ (codes "|" ++ doc_id)))

-- `hashlib.sha256` is the parameter.
unfoldable pub advisory_lock_key : (List ℕ → List ℕ) → Text → Text → Text → Outcome (ℤ × ℤ)
advisory_lock_key sha256 tenant_id bot_id doc_id = and_then (validate_slug tenant_id) λ _.
    and_then (validate_slug bot_id) λ _.
      if is_empty doc_id
      then raised value_error
      else unpack_keys (sha256 (encode (lock_text tenant_id bot_id doc_id)))
