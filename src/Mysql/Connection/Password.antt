-- ===== src/Mysql/Connection/Password.antt =====
-- The password's scramble, a server that checks it, and the response that carries it.
use Prim.Native.Nat.{bit_xor}
use mathlib.Core.Path.{subst}
use chxsql.Base.{
  AllBytes, allocated, allocated_exact, ℕ, zero, suc, ◌+◌, ◌<◌, Bytes, [], ◌∷◌, ◌++◌, ◌≡◌, refl,
  sym, ap, ◌∙◌, Bool, true, ◌&&◌, some, append_assoc, arith, length, length-append,
  length-replicate, ◌==◌, ==_iff, if◌then◌else◌, Bool-cases, inl, inr,
}
use chxsql.Mysql.Basic.RoundTrip.{length-to_network}
use chxsql.Mysql.Connection.{
  ConnectParameters, xor_bytes, Scramble, scramble, generate_pw, digested, database_field,
  response_length, response_bytes,
}

abbrev Returns : ℕ → ℕ → Type 0
Returns a b = bit_xor (bit_xor a b) b ≡ a

-- For one byte and every second operand below a limit.
returns_row : ℕ → ℕ → Bool
returns_row a zero = true
returns_row a (suc b) = (bit_xor (bit_xor a b) b == a) && returns_row a b

returns_table : ℕ → Bool
returns_table zero = true
returns_table (suc a) = returns_row a 256 && returns_table a

returns_row-Returns : (a limit : ℕ) {b : ℕ} → returns_row a limit ≡ true → b < limit → Returns a b
unfolding returns_row
returns_row-Returns a zero read k = absurd (omega (arith, k))
returns_row-Returns a (suc limit) {b} read k =
    let here : (bit_xor (bit_xor a limit) limit == a) ≡ true = ground (arith, read) in
    let below : returns_row a limit ≡ true = ground (arith, read) in
    elim (Bool-cases (b == limit)) [
      | inl same ↦ subst (Returns a) (sym ((==_iff b limit).0 same)) ((==_iff _ a).0 here)
      | inr other ↦ returns_row-Returns a limit below (ground (arith, k, other))
    ]

returns_table-Returns :
    (limit : ℕ) {a : ℕ} → returns_table limit ≡ true → a < limit → returns_row a 256 ≡ true
unfolding returns_table
returns_table-Returns zero read k = absurd (omega (arith, k))
returns_table-Returns (suc limit) {a} read k = ground (arith, returns_table-Returns limit {a = a})

byte_table : returns_table 256 ≡ true
unfolding returns_table returns_row
byte_table = refl

xor_twice : (a b : ℕ) → a < 256 → b < 256 → Returns a b
xor_twice a b h k = returns_row-Returns a 256 (returns_table-Returns 256 byte_table h) k

xor_bytes_twice :
    (xs ys : Bytes)
    → length xs ≡ length ys
    → AllBytes xs
    → AllBytes ys
    → xor_bytes (xor_bytes xs ys) ys ≡ xs
unfolding xor_bytes
xor_bytes_twice [] ys e a b = refl
xor_bytes_twice (x ∷ xs) [] e a b = absurd (omega (arith, e))
xor_bytes_twice (x ∷ xs) (y ∷ ys) e a b =
    rw (xor_twice x y a.0 b.0, xor_bytes_twice xs ys (omega (arith, e)) a.1 b.1) refl

length-xor_bytes : (xs ys : Bytes) → length xs ≡ length ys → length (xor_bytes xs ys) ≡ length xs
unfolding xor_bytes
length-xor_bytes [] ys e = refl
length-xor_bytes (x ∷ xs) [] e = absurd (omega (arith, e))
length-xor_bytes (x ∷ xs) (y ∷ ys) e = ap suc (length-xor_bytes xs ys (omega (arith, e)))

-- What SHA-1 is documented to give: 20 bytes for any text.
pub record IsSha1 (sha1 : Bytes → Bytes) : Type 0 where
  pub twenty : (text : Bytes) → length (sha1 text) ≡ 20
  pub bytes : (text : Bytes) → AllBytes (sha1 text)

-- What the server checks of a scramble: from it, the nonces and the digest of the digest it has the
-- digest of the password.
abbrev pub Accepted : (Bytes → Bytes) → Bytes → Bytes → Scramble → Type 0
Accepted sha1 nonce password (scramble pw) =
    (length pw ≡ 20)
    × (sha1 (xor_bytes pw (sha1 (nonce ++ sha1 (sha1 password)))) ≡ sha1 (sha1 password))
Accepted sha1 nonce password _ = ⊥

module _ (sha1 : Bytes → Bytes) (law : IsSha1 sha1) where
  digested_known :
      (text : Bytes) (after : Bytes → Scramble)
      → digested (λ t. some (sha1 t)) text after ≡ after (sha1 text)
  unfolding digested
  digested_known text after =
      let full : (length (sha1 text) == 20) ≡ true = (==_iff _ _).1 (law.twenty text) in
      rw full refl

  -- The scramble of a password has 20 bytes, and a server that knows the nonces and the digest of
  -- the password's digest accepts it, for a digest that gives 20 bytes for any text.
  pub generate_pw-Accepted :
      (nonce1 nonce2 password : Bytes)
      → Accepted sha1
          (nonce1 ++ nonce2)
          password
          (generate_pw (λ t. some (sha1 t)) nonce1 nonce2 password)
  unfolding generate_pw
  generate_pw-Accepted nonce1 nonce2 password =
      let a = sha1 password in
      let b = sha1 a in
      let c = sha1 (nonce1 ++ (nonce2 ++ b)) in
      let made : generate_pw (λ t. some (sha1 t)) nonce1 nonce2 password
          ≡ scramble (xor_bytes a c) =
        digested_known password (λ d.
          digested (λ t. some (sha1 t)) d
            (λ e.
              digested (λ t. some (sha1 t)) (nonce1 ++ (nonce2 ++ e))
                (λ f. scramble (xor_bytes d f))))
        ∙ digested_known a (λ e.
          digested (λ t. some (sha1 t)) (nonce1 ++ (nonce2 ++ e)) (λ f. scramble (xor_bytes a f)))
        ∙ digested_known (nonce1 ++ (nonce2 ++ b)) (λ f. scramble (xor_bytes a f)) in
      let same : length a ≡ length c = law.twenty password ∙ sym (law.twenty _) in
      let joined : (nonce1 ++ nonce2) ++ b ≡ nonce1 ++ (nonce2 ++ b) =
        append_assoc nonce1 nonce2 b in
      let back : xor_bytes (xor_bytes a c) (sha1 ((nonce1 ++ nonce2) ++ b)) ≡ a =
        rw joined (xor_bytes_twice a c same (law.bytes password) (law.bytes _)) in
      subst (Accepted sha1 (nonce1 ++ nonce2) password) (sym made)
        (length-xor_bytes a c same ∙ law.twenty password, ap sha1 back)

length-database_field :
    (para : ConnectParameters)
    → length (database_field para)
      ≡ (if length para.database == 0 then 0 else length para.database + 1)
unfolding database_field
length-database_field para = elim (Bool-cases (length para.database == 0)) [
  | inl e ↦ rw e refl
  | inr e ↦ rw e (length-append para.database (0 ∷ []))
]

-- With a scramble of 20 bytes the response fills its buffer exactly, whatever the user, and the
-- database if there is one.
pub response_fits :
    (para : ConnectParameters) (sequence_id : ℕ) (pw : Bytes)
    → length pw ≡ 20
    → allocated (4 + response_length para) (response_bytes para sequence_id pw)
      ≡ some (response_bytes para sequence_id pw)
unfolding response_bytes response_length
response_fits para sequence_id pw h = allocated_exact _ _ (
    rw
      (
        length-append, length-to_network, length-append, length-to_network, length-append,
        length-to_network, length-append, length-replicate, length-append, length-append, h,
        length-append, length-database_field,
      )
      (omega arith))
