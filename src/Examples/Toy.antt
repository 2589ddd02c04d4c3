-- ===== src/Examples/Toy.antt =====
-- A codec that obeys the laws: a tag, then the value. Its bytes are numbers of any size.
use manifestus.Base.{
  ℕ, suc, ◌+◌, ◌-◌, ◌≤◌, ◌<◌, ◌≡◌, ◌∙◌, refl, sym, ap, Bool, true, false, Option, none, some, List,
  [], ◌∷◌, ◌++◌, length, take, drop, replicate, leb, ◌==◌, if◌then◌else◌, length-append,
  length-replicate, length-drop, take-append_length, drop-append_length, arith,
}
use mathlib.Core.List.{append_assoc}
use manifestus.Ring.Codec.{
  Codec, IsLawful, IsWritten, ReadsAs, VsfType, hp, d, u, u0, u3, u4, u5, u6, u7, e6, v, other,
  as_u64, carried, pos, negsuc,
}

abbrev sum : List ℕ → ℕ
sum [] = 0
sum (x ∷ xs) = x + sum xs

abbrev flatten : VsfType → List ℕ
flatten (hp h) = 1 ∷ h
flatten (d s) = b'd' ∷ length s ∷ s
flatten (u n) = 2 ∷ n ∷ []
flatten (e6 (pos n)) = 3 ∷ 0 ∷ n ∷ []
flatten (e6 (negsuc n)) = 3 ∷ 1 ∷ n ∷ []
flatten (v t b) = 4 ∷ t ∷ length b ∷ b
flatten _ = 0 ∷ []

-- The value after each tag, and how many bytes it took after the tag.
abbrev hash_here : List ℕ → Option (VsfType × ℕ)
hash_here r = if leb 32 (length r) then some (hp (take 32 r), 32) else none

abbrev number_here : List ℕ → Option (VsfType × ℕ)
number_here [] = none
number_here (n ∷ r) = some (u n, 1)

abbrev time_here : List ℕ → Option (VsfType × ℕ)
time_here [] = none
time_here (s ∷ []) = none
time_here (s ∷ n ∷ r) = if s == 0 then some (e6 (pos n), 2) else some (e6 (negsuc n), 2)

abbrev name_here : List ℕ → Option (VsfType × ℕ)
name_here [] = none
name_here (n ∷ r) = if leb n (length r) then some (d (take n r), n + 1) else none

abbrev bytes_here : List ℕ → Option (VsfType × ℕ)
bytes_here [] = none
bytes_here (t ∷ []) = none
bytes_here (t ∷ n ∷ r) = if leb n (length r) then some (v t (take n r), n + 2) else none

abbrev after_tag : ℕ → List ℕ → Option (VsfType × ℕ)
after_tag t r =
    if t == 1
    then hash_here r
    else if t == 2
    then number_here r
    else if t == 3
    then time_here r
    else if t == 4
    then bytes_here r
    else if t == b'd'
    then name_here r
    else none

abbrev parse_here : List ℕ → Option (VsfType × ℕ)
parse_here [] = none
parse_here (t ∷ r) = after_tag t r

abbrev placed : ℕ → Option (VsfType × ℕ) → Option (VsfType × ℕ)
placed p none = none
placed p (some (x, n)) = some (x, p + (n + 1))

abbrev hash : List ℕ → List ℕ
hash b = sum b ∷ replicate 31 0

abbrev pub toy : Codec
toy = record { parse = λ b p. placed p (parse_here (drop p b)); flatten = flatten; hash = hash }

whole : (h post : List ℕ) → length h ≡ 32 → hash_here (h ++ post) ≡ some (hp h, 32)
whole h post e =
    let fits : leb 32 (length (h ++ post)) ≡ true = ground (arith, length-append {0} h post) in
    let taken : take 32 (h ++ post) ≡ h =
      ap (λ (n : ℕ). take n (h ++ post)) (sym e) ∙ take-append_length h post in
    rw (fits, taken) refl

name_whole : (s post : List ℕ) → name_here (length s ∷ (s ++ post)) ≡ some (d s, length s + 1)
name_whole s post =
    let fits : leb (length s) (length (s ++ post)) ≡ true =
      ground (arith, length-append {0} s post) in
    rw (fits, take-append_length s post) refl

bytes_whole :
    (t : ℕ) (b post : List ℕ) → bytes_here (t ∷ length b ∷ (b ++ post)) ≡ some (v t b, length b + 2)
bytes_whole t b post =
    let fits : leb (length b) (length (b ++ post)) ≡ true =
      ground (arith, length-append {0} b post) in
    rw (fits, take-append_length b post) refl

three : (n : ℕ) → n + 2 + 1 ≡ suc (suc (suc n))
three n = omega arith

two : (n : ℕ) → n + 1 + 1 ≡ suc (suc n)
two n = omega arith

read_back :
    (x : VsfType) (post : List ℕ) (p : ℕ)
    → IsWritten x
    → (w : VsfType) × (ReadsAs x w)
      × (placed p (parse_here (flatten x ++ post)) ≡ some (w, p + length (flatten x)))
unfolding as_u64
read_back (hp h) post p i =
    (hp h, refl, ap (placed p) (whole h post i) ∙ ap (λ (n : ℕ). some (hp h, p + suc n)) (sym i))
read_back (d s) post p i = (
  d s,
  refl,
  ap (placed p) (name_whole s post) ∙ ap (λ (n : ℕ). some (d s, p + n)) (two (length s)),
)
read_back (u n) post p i = (u n, refl, refl)
read_back (e6 (pos n)) post p i = (e6 (pos n), refl, refl)
read_back (e6 (negsuc n)) post p i = (e6 (negsuc n), refl, refl)
read_back (u0 b) post p i = absurd i
read_back (u3 n) post p i = absurd i
read_back (u4 n) post p i = absurd i
read_back (u5 n) post p i = absurd i
read_back (u6 n) post p i = absurd i
read_back (u7 n) post p i = absurd i
read_back (v t b) post p i = (
  v t b,
  refl,
  ap (placed p) (bytes_whole t b post) ∙ ap (λ (n : ℕ). some (v t b, p + n)) (three (length b)),
)
read_back (other t) post p i = absurd i

-- What is parsed lies in the buffer.
abbrev Fits : List ℕ → Option (VsfType × ℕ) → Type 0
Fits r none = Unit {0}
Fits r (some (x, n)) = n ≤ length r

if-Fits :
    (r : List ℕ) (b : Bool) (x y : Option (VsfType × ℕ))
    → (b ≡ true → Fits r x)
    → Fits r y
    → Fits r (if b then x else y)
if-Fits r true x y h k = h refl
if-Fits r false x y h k = k

number_here-Fits : (r : List ℕ) → Fits r (number_here r)
number_here-Fits [] = tt
number_here-Fits (n ∷ r) = omega arith

time_here-Fits : (r : List ℕ) → Fits r (time_here r)
time_here-Fits [] = tt
time_here-Fits (s ∷ []) = tt
time_here-Fits (s ∷ n ∷ r) =
    if-Fits (s ∷ n ∷ r) (s == 0) (some (e6 (pos n), 2)) (some (e6 (negsuc n), 2)) (λ e. omega arith)
      (omega arith)

le_of_leb : (a b : ℕ) → leb a b ≡ true → a ≤ b
le_of_leb a b h = ground arith

bytes_here-Fits : (r : List ℕ) → Fits r (bytes_here r)
bytes_here-Fits [] = tt
bytes_here-Fits (t ∷ []) = tt
bytes_here-Fits (t ∷ n ∷ r) =
    if-Fits (t ∷ n ∷ r) (leb n (length r)) (some (v t (take n r), n + 2)) none
      (λ e. omega (arith, le_of_leb n (length r) e)) tt

name_here-Fits : (r : List ℕ) → Fits r (name_here r)
name_here-Fits [] = tt
name_here-Fits (n ∷ r) =
    if-Fits (n ∷ r) (leb n (length r)) (some (d (take n r), n + 1)) none
      (λ e. omega (arith, le_of_leb n (length r) e)) tt

after_tag-Fits : (t : ℕ) (r : List ℕ) → Fits r (after_tag t r)
after_tag-Fits t r =
    if-Fits r (t == 1) (hash_here r) _
      (λ e.
        if-Fits r (leb 32 (length r)) (some (hp (take 32 r), 32)) none (le_of_leb 32 (length r)) tt)
      (if-Fits r (t == 2) (number_here r) _ (λ e. number_here-Fits r)
        (if-Fits r (t == 3) (time_here r) _ (λ e. time_here-Fits r)
          (if-Fits r (t == 4) (bytes_here r) _ (λ e. bytes_here-Fits r)
            (if-Fits r (t == b'd') (name_here r) none (λ e. name_here-Fits r) tt))))

forward :
    (b : List ℕ) (p : ℕ) (rest : List ℕ)
    → length rest ≡ length b - p
    → (w : VsfType) (q : ℕ) → placed p (parse_here rest) ≡ some (w, q)
    → (p < q) × (q ≤ length b)
forward b p [] e w q h = absurd (cc h)
forward b p (t ∷ r) e w q h = go (after_tag t r) (after_tag-Fits t r) h
  where
    go : (o : Option (VsfType × ℕ)) → Fits r o → placed p o ≡ some (w, q) → (p < q) × (q ≤ length b)
    go none f k = absurd (cc k)
    go (some (x, n)) f k = let same : p + (n + 1) ≡ q = cc k in (omega arith, omega arith)

flatten_hp : (h k : List ℕ) → length h ≡ 32 → length k ≡ 32 → suc (length h) ≡ suc (length k)
flatten_hp h k e f = omega arith

small : (x : VsfType) → IsWritten x → length (flatten x) ≤ 6 + carried x
small (hp h) i = omega arith
small (d s) i = omega arith
small (u n) i = omega arith
small (e6 (pos n)) i = omega arith
small (e6 (negsuc n)) i = omega arith
small (u0 b) i = absurd i
small (u3 n) i = absurd i
small (u4 n) i = absurd i
small (u5 n) i = absurd i
small (u6 n) i = absurd i
small (u7 n) i = absurd i
small (v t b) i = omega arith
small (other t) i = absurd i

pub toy-IsLawful : IsLawful toy
toy-IsLawful = record {
  parse-flatten = λ x pre post i.
      let (w, r, e) = read_back x post (length pre) i in
      let regroup : pre ++ flatten x ++ post ≡ pre ++ (flatten x ++ post) = simp append_assoc in
      (
        w,
        r,
        ap (λ (l : List ℕ). placed (length pre) (parse_here (drop (length pre) l))) regroup
            ∙ ap (λ (l : List ℕ). placed (length pre) (parse_here l))
                (drop-append_length pre (flatten x ++ post))
            ∙ e,
      );
  parse_forward = λ b p. forward b p (drop p b) (length-drop p b);
  flatten_name = λ s. (length s ∷ s, refl);
  length-hash = λ b. omega (arith, length-replicate {0} {A = ℕ} 31 0);
  length-flatten_hp = flatten_hp;
  flatten_small = small;
  flatten_run = λ s n e b. omega arith;
}
