-- ===== src/Hamt/Keys.antt =====
-- src/hamt.rs, `chunk` and `route_with_chunk`: two distinct keys always diverge within 52 chunks, and a
-- route takes the slot at its depth.
use manifestus.Base.{
  ℕ, zero, suc, ◌+◌, ◌-◌, ◌*◌, ◌/◌, ◌%◌, ◌^◌, ◌≤◌, ◌<◌, ◌≡◌, ◌∙◌, refl, sym, ap, ap₂, Bool, true,
  false, List, [], ◌∷◌, length, ltb, if◌then◌else◌, arith,
}
use manifestus.Hamt.Walk.{byte_at, window, chunk}

-- A list of bytes.
abbrev pub AreBytes : List ℕ → Type 0
AreBytes [] = Unit {0}
AreBytes (b ∷ bs) = (b < 256) × AreBytes bs

pub record IsKey (k : List ℕ) : Type 0 where
  pub length_32 : length k ≡ 32
  pub bytes : AreBytes k

byte_at-past : (bs : List ℕ) (i : ℕ) → length bs ≤ i → byte_at bs i ≡ 0
unfolding byte_at
byte_at-past [] i h = refl
byte_at-past (b ∷ bs) zero h = absurd (omega arith)
byte_at-past (b ∷ bs) (suc i) h = byte_at-past bs i (omega arith)

-- The chunk without the guard on the last byte.
bits_at : List ℕ → ℕ → ℕ
bits_at bs bit = (byte_at bs (bit / 8) * 256 + byte_at bs (bit / 8 + 1)) / 2 ^ (11 - bit % 8) % 32

chunk-bits_at : (k : List ℕ) (depth : ℕ) → length k ≡ 32 → chunk k depth ≡ bits_at k (depth * 5)
unfolding chunk window bits_at
chunk-bits_at k depth e =
    ap (λ (t : ℕ). (byte_at k (depth * 5 / 8) * 256 + t) / 2 ^ (11 - depth * 5 % 8) % 32)
      (guard (depth * 5 / 8 + 1) (ltb (depth * 5 / 8 + 1) 32) refl)
  where
    guard : (i : ℕ) (b : Bool) → ltb i 32 ≡ b → (if b then byte_at k i else 0) ≡ byte_at k i
    guard i true h = refl
    guard i false h = sym (byte_at-past k i (ground arith))

-- Five bytes further, forty bits further.
byte_at-5 :
    (a b c d e : ℕ) (bs : List ℕ) (i : ℕ) → byte_at (a ∷ b ∷ c ∷ d ∷ e ∷ bs) (i + 5) ≡ byte_at bs i
unfolding byte_at
byte_at-5 a b c d e bs i =
    let five : i + 5 ≡ suc (suc (suc (suc (suc i)))) = omega arith in
    ap (byte_at (a ∷ b ∷ c ∷ d ∷ e ∷ bs)) five

bits_at-5 :
    (a b c d e : ℕ) (bs : List ℕ) (bit : ℕ)
    → bits_at (a ∷ b ∷ c ∷ d ∷ e ∷ bs) (bit + 40) ≡ bits_at bs bit
unfolding bits_at
bits_at-5 a b c d e bs bit =
    let q : (bit + 40) / 8 ≡ bit / 8 + 5 = omega arith in
    let q1 : (bit + 40) / 8 + 1 ≡ bit / 8 + 1 + 5 = omega arith in
    let r : (bit + 40) % 8 ≡ bit % 8 = omega arith in
    let all = a ∷ b ∷ c ∷ d ∷ e ∷ bs in
    ap
      (λ (t : ℕ).
        (byte_at all ((bit + 40) / 8) * 256 + byte_at all ((bit + 40) / 8 + 1)) / 2 ^ (11 - t) % 32)
      r
    ∙ ap₂ (λ (s t : ℕ). (s * 256 + t) / 2 ^ (11 - bit % 8) % 32)
        (ap (byte_at all) q ∙ byte_at-5 a b c d e bs (bit / 8))
        (ap (byte_at all) q1 ∙ byte_at-5 a b c d e bs (bit / 8 + 1))

-- The bits of a byte, from the chunks that it reaches into.
first_byte :
    (a b a' b' : ℕ)
    → b < 256
    → b' < 256
    → a < 256
    → a' < 256
    → (a * 256 + b) / 2048 % 32 ≡ (a' * 256 + b') / 2048 % 32
    → (a * 256 + b) / 64 % 32 ≡ (a' * 256 + b') / 64 % 32
    → (a ≡ a') × (b / 64 ≡ b' / 64)
first_byte a b a' b' h1 h2 h3 h4 e f = (omega arith, omega arith)

second_byte :
    (b c b' c' : ℕ)
    → b < 256
    → b' < 256
    → c < 256
    → c' < 256
    → b / 64 ≡ b' / 64
    → (b * 256 + c) / 512 % 32 ≡ (b' * 256 + c') / 512 % 32
    → (b * 256 + c) / 16 % 32 ≡ (b' * 256 + c') / 16 % 32
    → (b ≡ b') × (c / 16 ≡ c' / 16)
second_byte b c b' c' h1 h2 h3 h4 d e f =
    let mid : b / 2 % 32 ≡ b' / 2 % 32 = omega arith in
    let low : b % 2 ≡ b' % 2 = omega arith in (omega arith, omega arith)

third_byte :
    (c d c' d' : ℕ)
    → c < 256
    → c' < 256
    → d < 256
    → d' < 256
    → c / 16 ≡ c' / 16
    → (c * 256 + d) / 128 % 32 ≡ (c' * 256 + d') / 128 % 32
    → (c ≡ c') × (d / 128 ≡ d' / 128)
third_byte c d c' d' h1 h2 h3 h4 e f =
    let low : c % 16 ≡ c' % 16 = omega arith in (omega arith, omega arith)

fourth_byte :
    (d e d' e' : ℕ)
    → d < 256
    → d' < 256
    → e < 256
    → e' < 256
    → d / 128 ≡ d' / 128
    → (d * 256 + e) / 1024 % 32 ≡ (d' * 256 + e') / 1024 % 32
    → (d * 256 + e) / 32 % 32 ≡ (d' * 256 + e') / 32 % 32
    → (d ≡ d') × (e / 32 ≡ e' / 32)
fourth_byte d e d' e' h1 h2 h3 h4 g f k =
    let mid : d / 4 % 32 ≡ d' / 4 % 32 = omega arith in
    let low : d % 4 ≡ d' % 4 = omega arith in (omega arith, omega arith)

fifth_byte :
    (e x e' x' : ℕ)
    → e < 256
    → e' < 256
    → x < 256
    → x' < 256
    → e / 32 ≡ e' / 32
    → (e * 256 + x) / 256 % 32 ≡ (e' * 256 + x') / 256 % 32
    → e ≡ e'
fifth_byte e x e' x' h1 h2 h3 h4 g f = omega arith

byte_at-small : (bs : List ℕ) (i : ℕ) → AreBytes bs → byte_at bs i < 256
unfolding byte_at
byte_at-small [] i a = omega arith
byte_at-small (b ∷ bs) zero a = a.0
byte_at-small (b ∷ bs) (suc i) a = byte_at-small bs i a.1

-- The chunks of the first `n` groups of forty bits and of the two bytes behind them.
SameBits : ℕ → List ℕ → List ℕ → Type 0
SameBits n ks ls = (d : ℕ) → d < n * 8 + 4 → bits_at ks (d * 5) ≡ bits_at ls (d * 5)

module _ (a b c d e a' b' c' d' e' : ℕ) (ks ls : List ℕ) (old : AreBytes (a ∷ b ∷ c ∷ d ∷ e ∷ ks))
    (new : AreBytes (a' ∷ b' ∷ c' ∷ d' ∷ e' ∷ ls)) where
  later :
      (n : ℕ)
      → SameBits (suc n) (a ∷ b ∷ c ∷ d ∷ e ∷ ks) (a' ∷ b' ∷ c' ∷ d' ∷ e' ∷ ls)
      → SameBits n ks ls
  unfolding SameBits
  later n same i h =
      let at : i * 5 + 40 ≡ (i + 8) * 5 = omega arith in
      sym (bits_at-5 a b c d e ks (i * 5))
      ∙ ap (bits_at (a ∷ b ∷ c ∷ d ∷ e ∷ ks)) at
      ∙ same (i + 8) (omega arith)
      ∙ ap (bits_at (a' ∷ b' ∷ c' ∷ d' ∷ e' ∷ ls)) (sym at)
      ∙ bits_at-5 a' b' c' d' e' ls (i * 5)

  five_bytes :
      (n : ℕ)
      → SameBits (suc n) (a ∷ b ∷ c ∷ d ∷ e ∷ ks) (a' ∷ b' ∷ c' ∷ d' ∷ e' ∷ ls)
      → (a ≡ a') × (b ≡ b') × (c ≡ c') × (d ≡ d') × (e ≡ e')
  unfolding SameBits bits_at byte_at
  five_bytes n same =
      let (pa, pb) =
        first_byte a b a' b' old.1.0 new.1.0 old.0 new.0 (same 0 (omega arith))
          (same 1 (omega arith)) in
      let (qb, qc) =
        second_byte b c b' c' old.1.0 new.1.0 old.1.1.0 new.1.1.0 pb (same 2 (omega arith))
          (same 3 (omega arith)) in
      let (rc, rd) =
        third_byte c d c' d' old.1.1.0 new.1.1.0 old.1.1.1.0 new.1.1.1.0 qc
          (same 4 (omega arith)) in
      let (sd, se) =
        fourth_byte d e d' e' old.1.1.1.0 new.1.1.1.0 old.1.1.1.1.0 new.1.1.1.1.0 rd
          (same 5 (omega arith)) (same 6 (omega arith)) in
      (
        pa,
        qb,
        rc,
        sd,
        fifth_byte e (byte_at ks 0) e' (byte_at ls 0) old.1.1.1.1.0 new.1.1.1.1.0
            (byte_at-small ks 0 old.1.1.1.1.1) (byte_at-small ls 0 new.1.1.1.1.1) se
            (same 7 (omega arith)),
      )

five_equal :
    {a b c d e a' b' c' d' e' : ℕ} {ks ls : List ℕ}
    → (a ≡ a') × (b ≡ b') × (c ≡ c') × (d ≡ d') × (e ≡ e')
    → ks ≡ ls
    → a ∷ b ∷ c ∷ d ∷ e ∷ ks ≡ a' ∷ b' ∷ c' ∷ d' ∷ e' ∷ ls
five_equal (p, q, r, s, t) l = cc (p, q, r, s, t, l)

two_equal :
    (a b a' b' : ℕ)
    → AreBytes (a ∷ b ∷ [])
    → AreBytes (a' ∷ b' ∷ [])
    → SameBits 0 (a ∷ b ∷ []) (a' ∷ b' ∷ [])
    → a ∷ b ∷ [] ≡ a' ∷ b' ∷ []
unfolding SameBits bits_at byte_at
two_equal a b a' b' old new same =
    let (p, q) =
      first_byte a b a' b' old.1.0 new.1.0 old.0 new.0 (same 0 (omega arith))
        (same 1 (omega arith)) in
    let (r, s) =
      second_byte b 0 b' 0 old.1.0 new.1.0 (omega arith) (omega arith) q (same 2 (omega arith))
        (same 3 (omega arith)) in
    cc (p, r)

same_bytes :
    (n : ℕ) (ks ls : List ℕ)
    → length ks ≡ n * 5 + 2
    → length ls ≡ n * 5 + 2
    → AreBytes ks
    → AreBytes ls
    → SameBits n ks ls
    → ks ≡ ls
same_bytes zero (a ∷ b ∷ []) (a' ∷ b' ∷ []) h k old new same = two_equal a b a' b' old new same
same_bytes (suc n) (a ∷ b ∷ c ∷ d ∷ e ∷ ks) (a' ∷ b' ∷ c' ∷ d' ∷ e' ∷ ls) h k old new same =
    five_equal (five_bytes a b c d e a' b' c' d' e' ks ls old new n same) (
      same_bytes n ks ls (omega arith) (omega arith) old.1.1.1.1.1 new.1.1.1.1.1
        (later a b c d e a' b' c' d' e' ks ls old new n same))
same_bytes zero [] ls h k old new same = absurd (omega arith)
same_bytes zero (a ∷ []) ls h k old new same = absurd (omega arith)
same_bytes zero (a ∷ b ∷ c ∷ r) ls h k old new same = absurd (omega arith)
same_bytes zero (a ∷ b ∷ []) [] h k old new same = absurd (omega arith)
same_bytes zero (a ∷ b ∷ []) (a' ∷ []) h k old new same = absurd (omega arith)
same_bytes zero (a ∷ b ∷ []) (a' ∷ b' ∷ c' ∷ r) h k old new same = absurd (omega arith)
same_bytes (suc n) [] ls h k old new same = absurd (omega arith)
same_bytes (suc n) (a ∷ []) ls h k old new same = absurd (omega arith)
same_bytes (suc n) (a ∷ b ∷ []) ls h k old new same = absurd (omega arith)
same_bytes (suc n) (a ∷ b ∷ c ∷ []) ls h k old new same = absurd (omega arith)
same_bytes (suc n) (a ∷ b ∷ c ∷ d ∷ []) ls h k old new same = absurd (omega arith)
same_bytes (suc n) (a ∷ b ∷ c ∷ d ∷ e ∷ ks) [] h k old new same = absurd (omega arith)
same_bytes (suc n) (a ∷ b ∷ c ∷ d ∷ e ∷ ks) (a' ∷ []) h k old new same = absurd (omega arith)
same_bytes (suc n) (a ∷ b ∷ c ∷ d ∷ e ∷ ks) (a' ∷ b' ∷ []) h k old new same = absurd (omega arith)
same_bytes (suc n) (a ∷ b ∷ c ∷ d ∷ e ∷ ks) (a' ∷ b' ∷ c' ∷ []) h k old new same =
    absurd (omega arith)
same_bytes (suc n) (a ∷ b ∷ c ∷ d ∷ e ∷ ks) (a' ∷ b' ∷ c' ∷ d' ∷ []) h k old new same =
    absurd (omega arith)

-- Keys whose 52 chunks are equal are equal.
pub chunk-injective :
    (k l : List ℕ)
    → IsKey k
    → IsKey l
    → ((depth : ℕ) → depth < 52 → chunk k depth ≡ chunk l depth)
    → k ≡ l
unfolding SameBits
chunk-injective k l a b same =
    same_bytes 6 k l a.length_32 b.length_32 a.bytes b.bytes
      (λ d h. sym (chunk-bits_at k d a.length_32) ∙ same d h ∙ chunk-bits_at l d b.length_32)
