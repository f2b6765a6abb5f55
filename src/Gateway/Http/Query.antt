-- ===== src/Gateway/Http/Query.antt =====
-- `parse_query_param` and the routes of gateway/src/http_server.cpp.
use eye_d.Base.{ℕ, ◌≡◌, refl, ◌≢◌, [], ◌∷◌, ◌++◌, some, arith, codes, All}
use eye_d.Gateway.Http.{
  Text, after_char, after_prefix, after_text, until_char, value_in, parse_query_param,
}

after_char-append :
    (c : ℕ) (path rest : Text)
    → All (λ x. x ≢ c) path
    → after_char c (path ++ (c ∷ rest)) ≡ some rest
unfolding after_char
after_char-append c [] rest h = ground arith
after_char-append c (x ∷ path) rest h = ground (arith, after_char-append c path rest h.1)

after_prefix-append : (needle rest : Text) → after_prefix needle (needle ++ rest) ≡ some rest
unfolding after_prefix
after_prefix-append [] rest = refl
after_prefix-append (n ∷ needle) rest = ground (arith, after_prefix-append needle rest)

after_text-append : (needle rest : Text) → after_text needle (needle ++ rest) ≡ some rest
unfolding after_text
after_text-append [] [] = refl
after_text-append [] (x ∷ rest) = refl
after_text-append (n ∷ needle) rest = rw (after_prefix-append (n ∷ needle) rest, after_text)

-- A character that does not begin the needle is passed over.
after_text_skip :
    (n : ℕ) (needle : Text) (c : ℕ) (s : Text)
    → n ≢ c
    → after_text (n ∷ needle) (c ∷ s) ≡ after_text (n ∷ needle) s
unfolding after_text after_prefix
after_text_skip n needle c s h = ground arith

until_char-append :
    (c : ℕ) (v rest : Text) → All (λ x. x ≢ c) v → until_char c (v ++ (c ∷ rest)) ≡ v
unfolding until_char
until_char-append c [] rest h = ground arith
until_char-append c (x ∷ v) rest h = ground (arith, until_char-append c v rest h.1)

-- The first parameter of a query is found under its own name: its value runs to the next `&`.
pub parse_query_param_first :
    (path key v rest : Text)
    → All (λ x. x ≢ b'?') path
    → All (λ x. x ≢ b'&') v
    → parse_query_param (path ++ (b'?' ∷ ((key ++ codes "=") ++ (v ++ (b'&' ∷ rest))))) key ≡ v
unfolding parse_query_param
parse_query_param_first path key v rest h k =
    rw (after_char-append b'?' path _ h, value_in)
      (rw (after_text-append (key ++ codes "=") (v ++ (b'&' ∷ rest)), value_in)
        (until_char-append b'&' v rest k))

-- A parameter whose name is the asked one with another character before it answers for it, also where
-- the asked parameter itself stands behind.
pub parse_query_param_shadowed :
    (path : Text) (c n : ℕ) (key v w : Text)
    → All (λ x. x ≢ b'?') path
    → All (λ x. x ≢ b'&') v
    → n ≢ c
    → parse_query_param
        (path
          ++ (b'?'
              ∷ c
              ∷ (((n ∷ key) ++ codes "=") ++ (v ++ (b'&' ∷ (((n ∷ key) ++ codes "=") ++ w))))))
        (n ∷ key)
      ≡ v
unfolding parse_query_param
parse_query_param_shadowed path c n key v w h k ne =
    rw (after_char-append b'?' path _ h, value_in)
      (rw
        (
          after_text_skip n (key ++ codes "=") c _ ne,
          after_text-append ((n ∷ key) ++ codes "=")
              (v ++ (b'&' ∷ (((n ∷ key) ++ codes "=") ++ w))),
          value_in,
        )
        (until_char-append b'&' v _ k))
