-- ===== src/Ring/Codec.antt =====
-- The crates vsf and blake3, which the repository only calls: typed values written to bytes and
-- parsed back, and the hash of a byte string. They are a parameter of the model.
use manifestus.Base.{
  ℕ, ◌+◌, ◌^◌, ◌<◌, ◌≤◌, ◌≡◌, Bool, Option, none, some, String, List, [], ◌∷◌, ◌++◌, length, ltb,
  if◌then◌else◌,
}
use Prim.Native.Char.{code}

-- A text as its bytes, all of which the source takes from ASCII literals.
abbrev pub text : String → List ℕ
text String.[] = []
text (String.◌∷◌ c s) = code c ∷ text s

pub data ℤ : Type 0 where
  pos : ℕ → ℤ
  negsuc : ℕ → ℤ

-- The variants of `VsfType` that the source writes or matches on; `e6` is `e(EtType::e6(..))`, and
-- `other` stands for every variant that it does not name.
pub data VsfType : Type 0 where
  hp : List ℕ → VsfType
  d : List ℕ → VsfType
  u : ℕ → VsfType
  u0 : Bool → VsfType
  u3 : ℕ → VsfType
  u4 : ℕ → VsfType
  u5 : ℕ → VsfType
  u6 : ℕ → VsfType
  u7 : ℕ → VsfType
  e6 : ℤ → VsfType
  v : ℕ → List ℕ → VsfType
  other : ℕ → VsfType

pub record Codec : Type 0 where
  -- `parse(block, &mut ptr)`: the value and where the pointer is left; `none` for a parse error.
  pub parse : List ℕ → ℕ → Option (VsfType × ℕ)
  pub flatten : VsfType → List ℕ
  pub hash : List ℕ → List ℕ

abbrev pub word : ℕ
word = 2 ^ 64

-- `as_u64`: the auto-sized writer flattens to a concrete size class, and the parser returns that.
unfoldable pub as_u64 : VsfType → Option ℕ
as_u64 (u x) = some x
as_u64 (u0 b) = some (if b then 1 else 0)
as_u64 (u3 x) = some x
as_u64 (u4 x) = some x
as_u64 (u5 x) = some x
as_u64 (u6 x) = some x
as_u64 (u7 x) = if ltb x word then some x else none
as_u64 _ = none

-- What parsing a written value gives back.
abbrev pub ReadsAs : VsfType → VsfType → Type 0
ReadsAs (hp h) w = w ≡ hp h
ReadsAs (d s) w = w ≡ d s
ReadsAs (e6 t) w = w ≡ e6 t
ReadsAs (u n) w = as_u64 w ≡ some n
ReadsAs (v t b) w = w ≡ v t b
ReadsAs _ w = ⊥

-- The values that the engine writes into a block.
abbrev pub IsWritten : VsfType → Type 0
IsWritten (hp h) = length h ≡ 32
IsWritten (d s) = length s ≤ 24
IsWritten (e6 t) = Unit {0}
IsWritten (u n) = n < word
IsWritten (v t b) = length b ≤ 2 ^ 12
IsWritten _ = ⊥

-- The bytes that a written value carries.
abbrev pub carried : VsfType → ℕ
carried (hp h) = length h
carried (d s) = length s
carried (v t b) = length b
carried _ = 8

-- What the engine relies on: a written value parses back, wherever it stands in a buffer; a parse
-- moves forward and stays in the buffer; a name starts with 'd'; the hash of any bytes has 32 bytes,
-- and all hashes flatten to one length; a written value takes at most 6 bytes more than it carries;
-- and a field of a run, a name of one letter and a number, takes at most 16 bytes (`max_runs`).
pub record IsLawful (c : Codec) : Type 0 where
  pub parse-flatten :
      (x : VsfType) (pre post : List ℕ)
      → IsWritten x
      → (w : VsfType) × (ReadsAs x w)
        × (c.parse (pre ++ c.flatten x ++ post) (length pre)
            ≡ some (w, length pre + length (c.flatten x)))
  pub parse_forward :
      (b : List ℕ) (p : ℕ) (w : VsfType) (q : ℕ)
      → c.parse b p ≡ some (w, q)
      → (p < q) × (q ≤ length b)
  pub flatten_name : (s : List ℕ) → (r : List ℕ) × (c.flatten (d s) ≡ b'd' ∷ r)
  pub length-hash : (b : List ℕ) → length (c.hash b) ≡ 32
  pub length-flatten_hp :
      (h k : List ℕ)
      → length h ≡ 32
      → length k ≡ 32
      → length (c.flatten (hp h)) ≡ length (c.flatten (hp k))
  pub flatten_small : (x : VsfType) → IsWritten x → length (c.flatten x) ≤ 6 + carried x
  pub flatten_run :
      (s : List ℕ) (n : ℕ)
      → length s ≡ 1
      → n < word
      → length (c.flatten (d s)) + length (c.flatten (u n)) ≤ 16
