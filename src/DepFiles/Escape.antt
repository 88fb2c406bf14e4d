-- ===== src/DepFiles/Escape.antt =====
-- `replace_all` of a single byte is one pass, and so is the whole escape.
use dist_build_sys.Base.{
  ℕ, zero, suc, ◌+◌, ◌<◌, ◌≡◌, refl, sym, ap, ap₂, ◌∙◌, [], ◌∷◌, ◌++◌, append_assoc, flat_map, true,
  false, ◌||◌, some, Bytes, ◌==◌, length, find, starts_with, if◌then◌else◌, ◌>>=◌, arith,
  Bool-cases, Option-cases, inl, inr,
}
use dist_build_sys.DepFiles.{replace_loop, replace_all, escape_gnu_make_spaces}

abbrev substitute : ℕ → Bytes → ℕ → Bytes
substitute c to x = if x == c then to else x ∷ []

refl_eq : (c : ℕ) → (c == c) ≡ true
refl_eq c = ground arith

find_here : (c : ℕ) (s : Bytes) → find (c ∷ []) (c ∷ s) ≡ some 0
unfolding find starts_with
find_here c s = ground arith

find_later :
    (c x : ℕ) (s : Bytes)
    → (x == c) ≡ false
    → find (c ∷ []) (x ∷ s) ≡ (find (c ∷ []) s >>= λ i. some (suc i))
unfolding find starts_with
find_later c x s h = ground (arith, h)

replace_here :
    (fuel c : ℕ) (to s : Bytes)
    → replace_loop (suc fuel) (c ∷ []) to (c ∷ s) ≡ to ++ replace_loop fuel (c ∷ []) to s
unfolding replace_loop
replace_here fuel c to s = rw (find_here c s, replace_loop)

replace_later :
    (fuel c x : ℕ) (to s : Bytes)
    → (x == c) ≡ false
    → replace_loop (suc fuel) (c ∷ []) to (x ∷ s) ≡ x ∷ replace_loop (suc fuel) (c ∷ []) to s
unfolding replace_loop
replace_later fuel c x to s h = elim (Option-cases (find (c ∷ []) s)) [
  | inl e ↦ rw (find_later c x s h, e, replace_loop)
  | inr (i, e) ↦
      let shifted : suc i + 1 ≡ suc (i + 1) = omega arith in
      rw (find_later c x s h, e, replace_loop, shifted)
]

replace_loop-substitute :
    (fuel c : ℕ) (to s : Bytes)
    → length s < fuel
    → replace_loop fuel (c ∷ []) to s ≡ flat_map (substitute c to) s
unfolding replace_loop find starts_with flat_map
replace_loop-substitute zero c to s h = absurd (omega arith)
replace_loop-substitute (suc fuel) c to [] h = refl
replace_loop-substitute (suc fuel) c to (x ∷ s) h = elim (Bool-cases (x == c)) [
  | inl e ↦
      let same : x ≡ c = ground arith in
      rw (same, replace_here fuel c to s, replace_loop-substitute fuel c to s (omega arith))
        (ap (λ b. (if b then to else c ∷ []) ++ flat_map (substitute c to) s) (sym (refl_eq c)))
  | inr e ↦
      rw (replace_later fuel c x to s e, replace_loop-substitute (suc fuel) c to s (omega arith), e)
]

-- `replace_all` of a byte replaces every byte that is equal to it, and keeps the others.
replace_all-substitute :
    (c : ℕ) (to s : Bytes) → replace_all s (c ∷ []) to ≡ flat_map (substitute c to) s
unfolding replace_all
replace_all-substitute c to s = replace_loop-substitute (suc (length s)) c to s (omega arith)

abbrev pub escape_byte : ℕ → Bytes
escape_byte c = if (c == 10) || (c == 32) || (c == 58) then 92 ∷ c ∷ [] else c ∷ []

flat_map-append : (f : ℕ → Bytes) (s t : Bytes) → flat_map f (s ++ t) ≡ flat_map f s ++ flat_map f t
unfolding flat_map
flat_map-append f [] t = refl
flat_map-append f (x ∷ s) t =
    ap (◌++◌ (f x)) (flat_map-append f s t) ∙ sym (append_assoc (f x) (flat_map f s) (flat_map f t))

abbrev passes : Bytes → Bytes
passes s =
    flat_map (substitute 58 (92 ∷ 58 ∷ []))
      (flat_map (substitute 32 (92 ∷ 32 ∷ [])) (flat_map (substitute 10 (92 ∷ 10 ∷ [])) s))

passes_byte : (x : ℕ) → passes (x ∷ []) ≡ escape_byte x
unfolding flat_map
passes_byte x = elim (Bool-cases (x == 10)) [
  | inl e ↦ let same : x ≡ 10 = ground arith in rw same refl
  | inr e10 ↦ elim (Bool-cases (x == 32)) [
    | inl e ↦ let same : x ≡ 32 = ground arith in rw same refl
    | inr e32 ↦ elim (Bool-cases (x == 58)) [
      | inl e ↦ let same : x ≡ 58 = ground arith in rw same refl
      | inr e58 ↦ simp (e10, e32, e58)
    ]
  ]
]

passes-append : (s t : Bytes) → passes (s ++ t) ≡ passes s ++ passes t
passes-append s t =
    rw
      (
        flat_map-append (substitute 10 (92 ∷ 10 ∷ [])) s t,
        flat_map-append (substitute 32 (92 ∷ 32 ∷ [])),
        flat_map-append (substitute 58 (92 ∷ 58 ∷ [])),
      )
      refl

passes-escape_byte : (s : Bytes) → passes s ≡ flat_map escape_byte s
unfolding flat_map
passes-escape_byte [] = refl
passes-escape_byte (x ∷ s) =
    passes-append (x ∷ []) s ∙ ap₂ ◌++◌ (passes_byte x) (passes-escape_byte s)

-- The three replacements together put one backslash before every newline, space and colon of the
-- text and change nothing else: no replacement touches what an earlier one has put in.
pub escape_gnu_make_spaces-escape_byte :
    (s : Bytes) → escape_gnu_make_spaces s ≡ flat_map escape_byte s
unfolding escape_gnu_make_spaces
escape_gnu_make_spaces-escape_byte s =
    rw
      (
        replace_all-substitute 10 (92 ∷ 10 ∷ []) s,
        replace_all-substitute 32,
        replace_all-substitute 58,
      )
      (passes-escape_byte s)
