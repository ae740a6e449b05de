-- ===== src/Format/Render.antt =====
-- src/kernel/printf.c: `vsnprintf` against the text that a format stands for.
use zoho_os.Prelude.{
  ℕ, zero, suc, ◌+◌, ◌-◌, ◌%◌, ◌^◌, ◌≤◌, ◌<◌, ◌≡◌, ◌≢◌, refl, sym, ap, ◌∙◌, subst, inl, inr, Bool,
  true, false, not, ◌&&◌, List, [], ◌∷◌, ◌++◌, length, length-append, take, arith, ◌==◌, ltb,
  if◌then◌else◌, Bool-cases,
}
use zoho_os.Bytes.{Memory}
use zoho_os.Format.{
  int_bits, word64, append_text, append_number, directive, takes_arg, format_from, vsnprintf, itoa,
}
use zoho_os.Format.Digits.{TextAt, printed, itoa-TextAt}

take_all : (n : ℕ) (xs : List ℕ) → length xs ≤ n → take n xs ≡ xs
take_all zero [] h = refl
take_all zero (x ∷ rest) h = absurd (omega arith)
take_all (suc n) [] h = refl
take_all (suc n) (x ∷ rest) h = ap (λ r. x ∷ r) (take_all n rest (omega arith))

take_first : (xs ys : List ℕ) → take (length xs) (xs ++ ys) ≡ xs
take_first [] ys = refl
take_first (x ∷ rest) ys = ap (λ r. x ∷ r) (take_first rest ys)

append_later : (xs ys zs : List ℕ) → (xs ++ ys) ++ zs ≡ xs ++ (ys ++ zs)
append_later [] ys zs = refl
append_later (x ∷ rest) ys zs = ap (λ r. x ∷ r) (append_later rest ys zs)

append_none : (xs : List ℕ) → xs ++ [] ≡ xs
append_none [] = refl
append_none (x ∷ rest) = ap (λ r. x ∷ r) (append_none rest)

-- A cut inside of a cut.
cut_outer : (n : ℕ) (xs ys : List ℕ) → take n (take n xs ++ ys) ≡ take n (xs ++ ys)
cut_outer zero xs ys = refl
cut_outer (suc n) [] ys = refl
cut_outer (suc n) (x ∷ rest) ys = ap (λ r. x ∷ r) (cut_outer n rest ys)

cut_twice : (n k : ℕ) (ys : List ℕ) → n ≤ k → take n (take k ys) ≡ take n ys
cut_twice zero k ys h = refl
cut_twice (suc n) zero ys h = absurd (omega arith)
cut_twice (suc n) (suc k) [] h = refl
cut_twice (suc n) (suc k) (y ∷ rest) h = ap (λ r. y ∷ r) (cut_twice n k rest (omega arith))

cut_inner : (n k : ℕ) (xs ys : List ℕ) → n ≤ k → take n (xs ++ take k ys) ≡ take n (xs ++ ys)
cut_inner n k [] ys h = cut_twice n k ys h
cut_inner zero k (x ∷ rest) ys h = refl
cut_inner (suc n) k (x ∷ rest) ys h = ap (λ r. x ∷ r) (cut_inner n k rest ys (omega arith))

length-take : (n : ℕ) (xs : List ℕ) → length (take n xs) ≤ n
length-take zero xs = omega arith
length-take (suc n) [] = omega arith
length-take (suc n) (x ∷ rest) = omega (arith, length-take n rest)

-- The text at an address, at most `n` bytes of it.
unfoldable pub text_at : ℕ → Memory → ℕ → List ℕ
text_at zero m s = []
text_at (suc n) m s = let rest = text_at n m (s + 1) in if m s == 0 then [] else m s ∷ rest

-- A text that is appended is cut at the limit.
append_text_lem :
    (fuel limit s : ℕ) (m : Memory) (str : List ℕ)
    → length str ≤ limit
    → limit ≤ length str + fuel
    → append_text fuel m s limit str ≡ take limit (str ++ text_at fuel m s)
unfolding append_text text_at
append_text_lem zero limit s m str a b =
    sym (ap (take limit) (append_none str) ∙ take_all limit str a)
append_text_lem (suc fuel) limit s m str a b = elim (Bool-cases (m s == 0)) [
  | inl t ↦ rw t (sym (ap (take limit) (append_none str) ∙ take_all limit str a))
  | inr t ↦ elim (Bool-cases (ltb (length str) limit)) [
    | inl r ↦
        let longer : length (str ++ m s ∷ []) ≡ length str + 1 = length-append str (m s ∷ []) in
        rw (t, r)
          (append_text_lem fuel limit (s + 1) m (str ++ m s ∷ []) (ground (arith, r, longer))
              (omega (arith, b, longer))
            ∙ ap (take limit) (append_later str (m s ∷ []) (text_at fuel m (s + 1))))
    | inr r ↦
        let full : limit ≡ length str = ground (arith, r, a) in
        rw (t, r)
          (sym (
            ap (λ n. take n (str ++ m s ∷ text_at fuel m (s + 1))) full
            ∙ take_first str (m s ∷ text_at fuel m (s + 1))))
  ]
]

TextAt-tail : (m : Memory) (p x : ℕ) (rest : List ℕ) → TextAt m p (x ∷ rest) → TextAt m (p + 1) rest
TextAt-tail m p x rest t = record {
  same = λ i h. ap m (omega arith) ∙ t.same (suc i) (omega arith);
  full = λ i h. t.full (suc i) (omega arith);
  ends = ap m (omega arith) ∙ t.ends;
}

TextAt-head : (m : Memory) (p x : ℕ) (rest : List ℕ) → TextAt m p (x ∷ rest) → m p ≡ x
TextAt-head m p x rest t = ap m (omega arith) ∙ t.same 0 (omega arith)

text_at_lem : (n p : ℕ) (m : Memory) (xs : List ℕ) → TextAt m p xs → text_at n m p ≡ take n xs
unfolding text_at
text_at_lem zero p m xs t = refl
text_at_lem (suc n) p m [] t = ground (arith, ap m {x = p + 0} {y = p} (omega arith), t.ends)
text_at_lem (suc n) p m (x ∷ rest) t =
    let here = TextAt-head m p x rest t in
    let further = text_at_lem n (p + 1) m rest (TextAt-tail m p x rest t) in
    let nonzero : x ≢ 0 = t.full 0 (omega arith) in ground (arith, here, further, nonzero)

-- A number is appended as it is written, cut at the limit.
append_number_lem :
    (buf : Memory) (n base limit : ℕ) (str : List ℕ)
    → length str ≤ limit
    → append_number buf n base limit str ≡ take limit (str ++ printed base n)
unfolding append_number
append_number_lem buf n base limit str h =
    append_text_lem limit limit 0 (itoa n buf base) str h (omega arith)
    ∙ ap (λ t. take limit (str ++ t))
        (text_at_lem limit 0 (itoa n buf base) (printed base n) (itoa-TextAt n base buf))
    ∙ cut_inner limit limit str (printed base n) (omega arith)

-- The text of a directive.
unfoldable pub shown : ℕ → Memory → ℕ → ℕ → List ℕ
unfolding text_at printed
shown limit m c arg =
    if c == b'c'
    then arg % 2 ^ 8 ∷ []
    else if c == b's'
    then text_at limit m arg
    else if c == b'd'
    then if ltb arg (2 ^ 63) then printed 10 arg else b'-' ∷ printed 10 (2 ^ 64 - arg)
    else if c == b'u'
    then printed 10 arg
    else if c == b'x'
    then printed 16 arg
    else if c == b'p'
    then printed 16 arg
    else c ∷ []

choose :
    (b : Bool) (f : List ℕ → List ℕ) (x y x' y' : List ℕ)
    → x ≡ f x'
    → y ≡ f y'
    → (if b then x else y) ≡ f (if b then x' else y')
choose true f x y x' y' s t = s
choose false f x y x' y' s t = t

-- A directive appends its text, cut at the limit.
directive_lem :
    (limit c arg : ℕ) (m buf : Memory) (str : List ℕ)
    → length str < limit
    → directive m buf limit c arg str ≡ take limit (str ++ shown limit m c arg)
unfolding directive shown
directive_lem limit c arg m buf str h =
    let cut : List ℕ → List ℕ = λ t. take limit (str ++ t) in
    let one = λ (x : ℕ).
      sym (take_all limit (str ++ x ∷ []) (omega (arith, h, length-append str (x ∷ [])))) in
    let number = λ (n base : ℕ). append_number_lem buf n base limit str (omega (arith, h)) in
    let negative =
      append_number_lem buf (2 ^ 64 - arg) 10 limit (str ++ b'-' ∷ [])
        (omega (arith, h, length-append str (b'-' ∷ [])))
      ∙ ap (take limit) (append_later str (b'-' ∷ []) (printed 10 (2 ^ 64 - arg))) in
    let pointer = choose (c == b'p') cut _ _ _ _ (number arg 16) (one c) in
    let hexadecimal = choose (c == b'x') cut _ _ _ _ (number arg 16) pointer in
    let unsigned = choose (c == b'u') cut _ _ _ _ (number arg 10) hexadecimal in
    let signed = choose (ltb arg (2 ^ 63)) cut _ _ _ _ (number arg 10) negative in
    let decimal = choose (c == b'd') cut _ _ _ _ signed unsigned in
    let string =
      choose (c == b's') cut _ _ _ _
        (append_text_lem limit limit arg m str (omega (arith, h)) (omega arith)) decimal in
    choose (c == b'c') cut _ _ _ _ (one (arg % 2 ^ 8)) string

-- The text of a format, without a limit; the flag says that a `%` is before it.
unfoldable pub render : ℕ → Memory → (ℕ → ℕ) → Bool → List ℕ → ℕ → List ℕ
unfolding shown
render limit m ap' open' [] k = []
render limit m ap' false (c ∷ rest) k =
    if c == b'%' then render limit m ap' true rest k else c ∷ render limit m ap' false rest k
render limit m ap' true (c ∷ rest) k =
    shown limit m c (ap' k) ++ render limit m ap' false rest (if takes_arg c then k + 1 else k)

-- No `%` is the last byte.
unfoldable pub is_complete : Bool → List ℕ → Bool
is_complete open' [] = not open'
is_complete false (c ∷ rest) = is_complete (c == b'%') rest
is_complete true (c ∷ rest) = is_complete false rest

-- The round of the loop on a plain byte, on a directive, and the last one.
plain_round :
    (fuel : ℕ) (m buf : Memory) (args : ℕ → ℕ) (limit p k : ℕ) (str : List ℕ)
    → (not (m p == 0) && ltb (length str) limit) ≡ true
    → (m p == b'%') ≡ false
    → format_from (suc fuel) m buf args limit p k str
      ≡ format_from fuel m buf args limit (p + 1) k (str ++ m p ∷ [])
unfolding format_from
plain_round fuel m buf args limit p k str go plain = rw (go, plain) refl

directive_round :
    (fuel : ℕ) (m buf : Memory) (args : ℕ → ℕ) (limit p k : ℕ) (str : List ℕ)
    → (not (m p == 0) && ltb (length str) limit) ≡ true
    → (m p == b'%') ≡ true
    → format_from (suc fuel) m buf args limit p k str
      ≡ format_from fuel m buf args limit
          (p + 2)
          (if takes_arg (m (p + 1)) then k + 1 else k)
          (directive m buf limit (m (p + 1)) (args k) str)
unfolding format_from
directive_round fuel m buf args limit p k str go open' = rw (go, open') refl

last_round :
    (fuel : ℕ) (m buf : Memory) (args : ℕ → ℕ) (limit p k : ℕ) (str : List ℕ)
    → (not (m p == 0) && ltb (length str) limit) ≡ false
    → format_from fuel m buf args limit p k str ≡ str
unfolding format_from
last_round zero m buf args limit p k str stop = refl
last_round (suc fuel) m buf args limit p k str stop = rw stop refl

-- What the loop appends from a place in the format on.
abbrev Appends : ℕ → Memory → Memory → (ℕ → ℕ) → ℕ → ℕ → ℕ → List ℕ → List ℕ → Type 0
Appends fuel m buf args limit p k str fmt =
    format_from fuel m buf args limit p k str ≡ take limit (str ++ render limit m args false fmt k)

-- Where there is no room, or nothing is left to do, the text is what it was.
ended-Appends :
    (fuel : ℕ) (m buf : Memory) (args : ℕ → ℕ) (limit p k : ℕ) (str fmt : List ℕ)
    → (not (m p == 0) && ltb (length str) limit) ≡ false
    → length str ≡ limit
    → Appends fuel m buf args limit p k str fmt
ended-Appends fuel m buf args limit p k str fmt stop full =
    last_round fuel m buf args limit p k str stop
    ∙ sym (ap (λ n. take n (str ++ render limit m args false fmt k)) (sym full) ∙ take_first str _)

-- The loop appends what it should, wherever it stands.
abbrev AllAppends : ℕ → Memory → Memory → (ℕ → ℕ) → ℕ → Type 0
AllAppends fuel m buf args limit =
    (p k : ℕ) (str fmt : List ℕ)
    → length fmt < fuel
    → length str ≤ limit
    → is_complete false fmt ≡ true
    → TextAt m p fmt
    → Appends fuel m buf args limit p k str fmt

-- A directive, and the rest of the format behind it.
open-Appends :
    (fuel : ℕ) (m buf : Memory) (args : ℕ → ℕ) (limit p k : ℕ) (str rest : List ℕ)
    → AllAppends fuel m buf args limit
    → length rest < fuel
    → length str < limit
    → is_complete true rest ≡ true
    → (m p == b'%') ≡ true
    → (not (m p == 0) && ltb (length str) limit) ≡ true
    → TextAt m (p + 1) rest
    → format_from (suc fuel) m buf args limit p k str
      ≡ take limit (str ++ render limit m args true rest k)
unfolding render is_complete
open-Appends fuel m buf args limit p k str [] further f h c open' go t = cc
open-Appends fuel m buf args limit p k str (d ∷ rest) further f h c open' go t =
    let here = TextAt-head m (p + 1) d rest t in
    let next = if takes_arg d then k + 1 else k in
    let text = shown limit m d (args k) in
    let after = render limit m args false rest next in
    directive_round fuel m buf args limit p k str go open'
    ∙ (λ i.
        format_from fuel m buf args limit (p + 2) (if takes_arg (here i) then k + 1 else k)
          (directive m buf limit (here i) (args k) str))
    ∙ ap (format_from fuel m buf args limit (p + 2) next)
        (directive_lem limit d (args k) m buf str h)
    ∙ further (p + 2) next (take limit (str ++ text)) rest (omega arith)
        (length-take limit (str ++ text)) c
        (subst (λ a. TextAt m a rest) (omega arith) (TextAt-tail m (p + 1) d rest t))
    ∙ cut_outer limit (str ++ text) after
    ∙ ap (take limit) (append_later str text after)

format_from_lem :
    (fuel : ℕ) (m buf : Memory) (args : ℕ → ℕ) (limit p k : ℕ) (str fmt : List ℕ)
    → length fmt < fuel
    → length str ≤ limit
    → is_complete false fmt ≡ true
    → TextAt m p fmt
    → Appends fuel m buf args limit p k str fmt
unfolding render is_complete
format_from_lem zero m buf args limit p k str fmt f h c t = absurd (omega arith)
format_from_lem (suc fuel) m buf args limit p k str [] f h c t =
    let nul : m p ≡ 0 = ap m {x = p} {y = p + 0} (omega arith) ∙ t.ends in
    last_round (suc fuel) m buf args limit p k str (ground (arith, nul))
    ∙ sym (ap (take limit) (append_none str) ∙ take_all limit str h)
format_from_lem (suc fuel) m buf args limit p k str (x ∷ rest) f h c t =
    elim (Bool-cases (ltb (length str) limit)) [
      | inr r ↦
          ended-Appends (suc fuel) m buf args limit p k str (x ∷ rest) (ground (arith, r))
            (ground (arith, r, h))
      | inl r ↦
          let here = TextAt-head m p x rest t in
          let nonzero : x ≢ 0 = t.full 0 (omega arith) in
          let go : (not (m p == 0) && ltb (length str) limit) ≡ true =
            ground (arith, here, nonzero, r) in
          elim (Bool-cases (x == b'%')) [
            | inr plain ↦
                let more = str ++ m p ∷ [] in
                let after = render limit m args false rest k in
                rw plain (
                  plain_round fuel m buf args limit p k str go (ap (λ v. v == b'%') here ∙ plain)
                  ∙ format_from_lem fuel m buf args limit (p + 1) k more rest (omega (arith, f))
                      (ground (arith, r, length-append str (m p ∷ [])))
                      (ap (λ b. is_complete b rest) (sym plain) ∙ c) (TextAt-tail m p x rest t)
                  ∙ ap (take limit) (append_later str (m p ∷ []) after)
                  ∙ ap (λ v. take limit (str ++ v ∷ after)) here)
            | inl open' ↦ rw open' (
                open-Appends fuel m buf args limit p k str rest
                  (format_from_lem fuel m buf args limit) (omega (arith, f)) (ground (arith, r))
                  (ap (λ b. is_complete b rest) (sym open') ∙ c) (ap (λ v. v == b'%') here ∙ open')
                  go (TextAt-tail m p x rest t))
          ]
    ]

-- For a size from 1 on, and a format whose last byte is not `%`, with fuel for its bytes and the NUL, the
-- text that is written is the text of the format, cut to fit with the NUL, and its length is returned as
-- the 32 bits of an `int`.
pub vsnprintf-cut :
    (fuel : ℕ) (m buf : Memory) (args : ℕ → ℕ) (size p : ℕ) (fmt : List ℕ)
    → 1 ≤ size
    → size ≤ 2 ^ 64
    → length fmt < fuel
    → is_complete false fmt ≡ true
    → TextAt m p fmt
    → let text = take (size - 1) (render (size - 1) m args false fmt 0) in
      vsnprintf fuel m buf size p args ≡ (text ++ 0 ∷ [], int_bits (length text))
unfolding vsnprintf
vsnprintf-cut fuel m buf args size p fmt a b f c t =
    let limit : word64 (size + 2 ^ 64 - 1) ≡ size - 1 = omega arith in
    ap
      (λ n. (
        format_from fuel m buf args n p 0 [] ++ 0 ∷ [],
        int_bits (length (format_from fuel m buf args n p 0 [])),
      ))
      limit
    ∙ ap (λ (str : List ℕ). (str ++ 0 ∷ [], int_bits (length str)))
        (format_from_lem fuel m buf args (size - 1) p 0 [] fmt f (omega arith) c t)

format_from_fits :
    (fuel : ℕ) (m buf : Memory) (args : ℕ → ℕ) (limit p k : ℕ) (str : List ℕ)
    → length str ≤ limit
    → length (format_from fuel m buf args limit p k str) ≤ limit
unfolding format_from
format_from_fits zero m buf args limit p k str h = h
format_from_fits (suc fuel) m buf args limit p k str h =
    elim (Bool-cases (not (m p == 0) && ltb (length str) limit)) [
      | inr stop ↦ rw stop h
      | inl go ↦
          let room : length str < limit = ground (arith, go) in
          elim (Bool-cases (m p == b'%')) [
            | inl open' ↦
                rw (go, open')
                  (rw (directive_lem limit (m (p + 1)) (args k) m buf str room) (
                    format_from_fits fuel m buf args limit (p + 2)
                      (if takes_arg (m (p + 1)) then k + 1 else k)
                      (take limit (str ++ shown limit m (m (p + 1)) (args k)))
                      (length-take limit (str ++ shown limit m (m (p + 1)) (args k)))))
            | inr plain ↦
                rw (go, plain)
                  (format_from_fits fuel m buf args limit (p + 1) k (str ++ m p ∷ [])
                    (omega (arith, room, length-append str (m p ∷ []))))
          ]
    ]

-- For a size from 1 on, no more bytes are written than there is room for, whatever the format, the
-- arguments and the fuel, and the bits of the count that is returned leave room for the NUL.
pub vsnprintf_fits :
    (fuel : ℕ) (m buf : Memory) (args : ℕ → ℕ) (size p : ℕ)
    → 1 ≤ size
    → size ≤ 2 ^ 64
    → (length (vsnprintf fuel m buf size p args).0 ≤ size)
      × ((vsnprintf fuel m buf size p args).1 < size)
unfolding vsnprintf
vsnprintf_fits fuel m buf args size p a b =
    let limit = word64 (size + 2 ^ 64 - 1) in
    let str = format_from fuel m buf args limit p 0 [] in
    let fits : length str ≤ limit = format_from_fits fuel m buf args limit p 0 [] (omega arith) in
    (omega (arith, fits, length-append str (0 ∷ [])), omega (arith, fits))
