-- ===== src/Cache/ShardKey.antt =====
-- `getShardKey`: the text under which a shard is kept in `shardBlocks`.
use tonutils_liteserver_prox.Base.{
  ◌-◌, ◌*◌, ◌<◌, ◌≡◌, ◌≢◌, refl, ap, sym, ◌∙◌, All, Bool-cases, inl, inr, arith, ℕ, zero, suc, ◌+◌,
  ◌/◌, ◌%◌, Bytes, [], ◌∷◌, ◌++◌, ltb, if◌then◌else◌,
}
use tonutils_liteserver_prox.Base.Int.{ℤ, pos, negsuc}

-- `fmt.Sprint` of a natural number, with one round of fuel for each digit
unfoldable pub digits : ℕ → ℕ → Bytes
digits zero n = []
digits (suc fuel) n =
    let front = digits fuel (n / 10) in
    if ltb n 10 then (b'0' + n) ∷ [] else front ++ (b'0' + n % 10) ∷ []

-- A number has no more digits than its value plus one.
unfoldable pub decimal : ℕ → Bytes
decimal n = digits (suc n) n

-- `fmt.Sprint` of an integer
unfoldable pub sprint : ℤ → Bytes
sprint (pos n) = decimal n
sprint (negsuc n) = b'-' ∷ decimal (suc n)

unfoldable pub get_shard_key : ℤ → ℤ → Bytes
get_shard_key wc shard = sprint wc ++ b':' ∷ sprint shard

-- The number that a list of digits stands for, read from the left.
read_digits : ℕ → Bytes → ℕ
read_digits acc [] = acc
read_digits acc (b ∷ bs) = read_digits (acc * 10 + (b - b'0')) bs

read_digits-append :
    (acc : ℕ) (xs ys : Bytes) → read_digits acc (xs ++ ys) ≡ read_digits (read_digits acc xs) ys
unfolding read_digits
read_digits-append acc [] ys = refl
read_digits-append acc (x ∷ xs) ys = read_digits-append (acc * 10 + (x - b'0')) xs ys

-- Printing loses nothing.
read_digits-digits : (fuel n : ℕ) → n < fuel → read_digits 0 (digits fuel n) ≡ n
unfolding digits read_digits
read_digits-digits zero n h = elim h [ ]
read_digits-digits (suc fuel) n h = elim (Bool-cases (ltb n 10)) [
  | inl small ↦ rw small (omega arith)
  | inr large ↦
      rw (large, read_digits-append, read_digits-digits fuel (n / 10) (ground arith)) (omega arith)
]

decimal-injective : (m n : ℕ) → decimal m ≡ decimal n → m ≡ n
unfolding decimal
decimal-injective m n e =
    sym (read_digits-digits (suc m) m (omega arith))
    ∙ ap (read_digits 0) e
    ∙ read_digits-digits (suc n) n (omega arith)

-- a byte that `fmt.Sprint` prints for an integer
abbrev IsPrinted : ℕ → Type 0
IsPrinted b = b ≢ b':'

All-append : (xs ys : Bytes) → All IsPrinted xs → All IsPrinted ys → All IsPrinted (xs ++ ys)
All-append [] ys h k = k
All-append (x ∷ xs) ys h k = (h.0, All-append xs ys h.1 k)

digits-All : (fuel n : ℕ) → All IsPrinted (digits fuel n)
unfolding digits
digits-All zero n = tt
digits-All (suc fuel) n = elim (Bool-cases (ltb n 10)) [
  | inl small ↦ rw small (ground arith, tt)
  | inr large ↦ rw large (All-append _ _ (digits-All fuel (n / 10)) (omega arith, tt))
]

-- The first digit is no minus sign.
abbrev IsUnsigned : Bytes → Type 0
IsUnsigned [] = Unit {0}
IsUnsigned (b ∷ bs) = b ≢ b'-'

IsUnsigned-append : (xs : Bytes) (d : ℕ) → IsUnsigned xs → d ≢ b'-' → IsUnsigned (xs ++ d ∷ [])
IsUnsigned-append [] d h k = k
IsUnsigned-append (x ∷ xs) d h k = h

digits-IsUnsigned : (fuel n : ℕ) → IsUnsigned (digits fuel n)
unfolding digits
digits-IsUnsigned zero n = tt
digits-IsUnsigned (suc fuel) n = elim (Bool-cases (ltb n 10)) [
  | inl small ↦ rw small (omega arith)
  | inr large ↦ rw large (IsUnsigned-append _ _ (digits-IsUnsigned fuel (n / 10)) (omega arith))
]

sign_differs : (xs ys : Bytes) → IsUnsigned xs → ¬ (xs ≡ b'-' ∷ ys)
sign_differs [] ys h e = cc
sign_differs (x ∷ xs) ys h e = h (ground arith)

sprint-injective : (x y : ℤ) → sprint x ≡ sprint y → x ≡ y
unfolding sprint decimal
sprint-injective (pos m) (pos n) e = ap pos (decimal-injective m n e)
sprint-injective (pos m) (negsuc n) e = absurd (sign_differs _ _ (digits-IsUnsigned (suc m) m) e)
sprint-injective (negsuc m) (pos n) e =
    absurd (sign_differs _ _ (digits-IsUnsigned (suc n) n) (sym e))
sprint-injective (negsuc m) (negsuc n) e = ground (arith, decimal-injective (suc m) (suc n))

sprint-All : (x : ℤ) → All IsPrinted (sprint x)
unfolding sprint decimal
sprint-All (pos n) = digits-All (suc n) n
sprint-All (negsuc n) = (omega arith, digits-All (suc (suc n)) (suc n))

-- Two texts are equal up to the first colon, and behind it.
split_colon :
    (xs xs' ys ys' : Bytes)
    → All IsPrinted xs
    → All IsPrinted xs'
    → xs ++ b':' ∷ ys ≡ xs' ++ b':' ∷ ys'
    → (xs ≡ xs') × (ys ≡ ys')
split_colon [] [] ys ys' h h' e = (refl, ground arith)
split_colon [] (x' ∷ xs') ys ys' h h' e = absurd (h'.0 (ground arith))
split_colon (x ∷ xs) [] ys ys' h h' e = absurd (h.0 (ground arith))
split_colon (x ∷ xs) (x' ∷ xs') ys ys' h h' e =
    let rest = split_colon xs xs' ys ys' h.1 h'.1 (ground arith) in (ground arith, rest.1)

-- Two shards have the same key only if they are the same shard of the same workchain, so the
-- entries of one shard never answer for another.
pub get_shard_key-injective :
    (wc wc' shard shard' : ℤ)
    → get_shard_key wc shard ≡ get_shard_key wc' shard'
    → (wc ≡ wc') × (shard ≡ shard')
unfolding get_shard_key
get_shard_key-injective wc wc' shard shard' e =
    let (front, back) = split_colon _ _ _ _ (sprint-All wc) (sprint-All wc') e in
    (sprint-injective wc wc' front, sprint-injective shard shard' back)
