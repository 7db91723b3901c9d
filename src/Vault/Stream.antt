-- ===== src/Vault/Stream.antt =====
-- What the vault takes from libsodium's secretstream (through PyNaCl) and from SHA-256. The laws are
-- the documented ones: sizes, and that a stream pulls what was pushed on it with the same key.
use work_trace.Prelude.{ℕ, ◌+◌, ◌≡◌, Option, some, String, length}
use work_trace.Vault.Bytes.{Bytes}

pub data Tag : Type 0 where
  message final : Tag
  other : ℕ → Tag

pub record Crypto : Type 1 where
  pub State : Type 0
  -- `init_push(state, key)`: the header, and the state it leaves
  pub init_push : Bytes → Bytes × State
  pub push : State → Bytes → Bytes → Tag → Bytes × State
  -- `none` where the binding raises
  pub init_pull : Bytes → Bytes → Option State
  pub pull : State → Bytes → Bytes → Option ((Bytes × Tag) × State)
  pub sha256 : Bytes → String

-- The documented behaviour, with the relation of a pushing and a pulling state.
pub record IsSound (s : Crypto) : Type 1 where
  pub Paired : s.State → s.State → Type 0
  pub header_length : (key : Bytes) → length (s.init_push key).0 ≡ 24
  pub paired :
      (key : Bytes)
      → (pull : s.State) × (s.init_pull (s.init_push key).0 key ≡ some pull)
        × Paired (s.init_push key).1 pull
  pub push_length :
      (a : s.State) (text extra : Bytes) (tag : Tag)
      → length (s.push a text extra tag).0 ≡ length text + 17
  pub pulls :
      (a b : s.State) (text extra : Bytes) (tag : Tag)
      → Paired a b
      → (b' : s.State) × (s.pull b (s.push a text extra tag).0 extra ≡ some ((text, tag), b'))
        × Paired (s.push a text extra tag).1 b'
