-- ===== src/Hybrid/Egress/Target.antt =====
-- The path of a target is read back as it is written, and nothing else is read.
use native.Mathlib.Nat.{pow-suc}
use mqcpn.Prelude.{
  subst, Option-cases, ◌||◌, if-cases, ℕ, zero, suc, ◌+◌, ◌-◌, ◌*◌, ◌/◌, ◌%◌, ◌^◌, ◌≡◌, ◌≢◌, ◌≤◌,
  ◌<◌, ◌⊎◌, refl, ap, true, not, some, List, [], ◌∷◌, ◌++◌, ◌==◌, ltb, leb, if◌then◌else◌, arith,
  length, length-append, take, drop, Bool-cases, inl, inr, same_bytes,
}
use mqcpn.Prelude.Text.{split_at, is_digit}
use mqcpn.Hybrid.Egress.{path_prefix, port_digits, checked_port, parse_path}

-- The decimal digits of a number, in at most `rounds` places.
abbrev pub decimal : ℕ → ℕ → List ℕ
decimal zero n = []
decimal (suc rounds) n =
    let before = decimal rounds (n / 10) in
    if ltb n 10 then (48 + n) ∷ [] else before ++ ((48 + n % 10) ∷ [])

-- No byte of a text is a slash.
abbrev pub NoSlash : List ℕ → Type 0
NoSlash [] = Unit {0}
NoSlash (c ∷ s) = (c ≢ 47) × NoSlash s

split_at-slash : (a b : List ℕ) → NoSlash a → split_at 47 (a ++ 47 ∷ b) ≡ some (a, b)
unfolding split_at
split_at-slash [] b n = refl
split_at-slash (c ∷ s) b (differs, n) = ground (arith, split_at-slash s b n, differs)

port_digits-snoc :
    (acc d : ℕ) (s : List ℕ) (p : ℕ)
    → port_digits acc s ≡ some p
    → d < 10
    → p * 10 + d ≤ 65535
    → port_digits acc (s ++ ((48 + d) ∷ [])) ≡ some (p * 10 + d)
unfolding port_digits
port_digits-snoc acc d [] p h small fits = ground arith
port_digits-snoc acc d (c ∷ s) p h small fits =
    let next = acc * 10 + (c - 48) in
    elim (Bool-cases (is_digit c)) [
      | inr other ↦ absurd (ground (arith, other))
      | inl digit ↦ elim (Bool-cases (ltb 65535 next)) [
        | inl large ↦ absurd (ground (arith, digit, large))
        | inr in_range ↦
            let rest : port_digits next s ≡ some p = ground (arith, digit, in_range) in
            ground (arith, digit, in_range, port_digits-snoc next d s p rest small fits)
      ]
    ]

port_digits-decimal :
    (rounds n : ℕ)
    → n < 10 ^ rounds
    → n ≤ 65535
    → 0 < rounds
    → port_digits 0 (decimal rounds n) ≡ some n
unfolding port_digits
port_digits-decimal zero n small le pos = absurd (omega arith)
port_digits-decimal (suc rounds) n small le pos = elim (Bool-cases (ltb n 10)) [
  | inl one_digit ↦ ground (arith, one_digit)
  | inr more ↦
      let up : 10 ^ suc rounds ≡ 10 ^ rounds * 10 = omega (arith, pow-suc 10 rounds) in
      let some_rounds : 0 < rounds = elim (zero_or_more rounds) [
        | inl none_left ↦
            let ten : 10 ^ rounds ≡ 1 = ap (λ (r : ℕ). 10 ^ r) none_left in
            ground (arith, more, up, ten)
        | inr positive ↦ positive
      ] in
      let before =
        port_digits-decimal rounds (n / 10) (omega (arith, up)) (omega arith) some_rounds in
      let last =
        port_digits-snoc 0 (n % 10) (decimal rounds (n / 10)) (n / 10) before (omega arith)
          (omega arith) in
      let whole : n / 10 * 10 + n % 10 ≡ n = omega arith in ground (arith, more, last, whole)
]
  where
    zero_or_more : (r : ℕ) → (r ≡ 0) ⊎ (0 < r)
    zero_or_more zero = inl refl
    zero_or_more (suc r) = inr (omega arith)

decimal-length :
    (rounds n : ℕ)
    → 0 < rounds
    → (0 < length (decimal rounds n)) × (length (decimal rounds n) ≤ rounds)
decimal-length zero n pos = absurd (omega arith)
decimal-length (suc zero) n pos = ground arith
decimal-length (suc (suc rounds)) n pos =
    let before = decimal-length (suc rounds) (n / 10) (omega arith) in
    let sum = length-append (decimal (suc rounds) (n / 10)) ((48 + n % 10) ∷ []) in
    elim (Bool-cases (ltb n 10)) [
      | inl one_digit ↦ ground (arith, one_digit)
      | inr more ↦ ground (arith, more, before, sum)
    ]

NoSlash-append : (a b : List ℕ) → NoSlash a → NoSlash b → NoSlash (a ++ b)
NoSlash-append [] b n m = m
NoSlash-append (c ∷ s) b (differs, n) m = (differs, NoSlash-append s b n m)

decimal-NoSlash : (rounds n : ℕ) → NoSlash (decimal rounds n)
decimal-NoSlash zero n = tt
decimal-NoSlash (suc rounds) n =
    if-cases NoSlash (ltb n 10) (λ _. (λ h. absurd (omega arith), tt))
      (λ _.
        NoSlash-append (decimal rounds (n / 10)) ((48 + n % 10) ∷ [])
          (decimal-NoSlash rounds (n / 10)) (λ h. absurd (omega arith), tt))

-- The path of a target, as the client's template spells it.
abbrev pub path_of : List ℕ → ℕ → List ℕ
path_of host port = path_prefix ++ (host ++ 47 ∷ (decimal 5 port ++ 47 ∷ []))

-- The path that is written for a host without a slash and a port from 1 to 65535 is read back as that host and
-- port, if the host is not empty and fits the buffer with its terminator.
pub parse_path-path_of :
    (cap : ℕ) (host : List ℕ) (port : ℕ)
    → 0 < length host
    → length host < cap
    → NoSlash host
    → 0 < port
    → port ≤ 65535
    → parse_path cap (path_of host port) ≡ some (host, port)
unfolding parse_path
parse_path-path_of cap host port filled fits plain pos le =
    let digits = decimal 5 port in
    let (some_digits, five) = decimal-length 5 port (omega arith) in
    let value = port_digits-decimal 5 port (omega arith) le (omega arith) in
    let first = split_at-slash host (digits ++ 47 ∷ []) plain in
    let second = split_at-slash digits [] (decimal-NoSlash 5 port) in
    let size = length-append host (47 ∷ (digits ++ 47 ∷ [])) in
    ground (arith, value, first, second, size, some_digits, five)

split_at_lem : (s a b : List ℕ) → split_at 47 s ≡ some (a, b) → NoSlash a × (s ≡ a ++ 47 ∷ b)
unfolding split_at
split_at_lem [] a b h = cc
split_at_lem (c ∷ s) a b h = elim (Bool-cases (c == 47)) [
  | inl slash ↦
      let nothing : [] ≡ a = ground (arith, slash, h) in
      (subst NoSlash nothing tt, ground (arith, slash, h))
  | inr other ↦ elim (Option-cases (split_at 47 s)) [
    | inl never ↦ absurd (ground (arith, other, never, h))
    | inr ((a', b'), found) ↦
        let (plain, whole) = split_at_lem s a' b' found in
        let longer : c ∷ a' ≡ a = ground (arith, other, found, h) in
        let differs : c ≢ 47 = λ same. absurd (ground (arith, other, same)) in
        (subst NoSlash longer (differs, plain), ground (arith, other, found, h, whole))
  ]
]

port_digits-le :
    (acc : ℕ) (s : List ℕ) (p : ℕ) → acc ≤ 65535 → port_digits acc s ≡ some p → p ≤ 65535
unfolding port_digits
port_digits-le acc [] p le h = ground (arith, h)
port_digits-le acc (c ∷ s) p le h =
    let next = acc * 10 + (c - 48) in
    elim (Bool-cases (is_digit c)) [
      | inr other ↦ absurd (ground (arith, other))
      | inl digit ↦ elim (Bool-cases (ltb 65535 next)) [
        | inl large ↦ absurd (ground (arith, digit, large))
        | inr in_range ↦
            port_digits-le next s p (ground (arith, in_range)) (ground (arith, digit, in_range))
      ]
    ]

checked_port-range :
    (digits : List ℕ) (p : ℕ) → checked_port digits ≡ some p → (1 ≤ p) × (p ≤ 65535)
checked_port-range digits p h = elim (Option-cases (port_digits 0 digits)) [
  | inl bad ↦ absurd (ground (arith, bad, h))
  | inr (q, value) ↦
      let le = port_digits-le 0 digits q (omega arith) value in
      (ground (arith, value, h), ground (arith, value, h, le))
]

checked_port-length :
    (digits : List ℕ) (p : ℕ)
    → checked_port digits ≡ some p
    → (0 < length digits) × (length digits ≤ 5)
checked_port-length digits p h = (ground (arith, h), ground (arith, h))

nothing_left : (s : List ℕ) → (length s == 0) ≡ true → s ≡ []
nothing_left [] h = refl
nothing_left (c ∷ s) h = absurd (ground (arith, h))

-- Whatever bytes come in: a path that is accepted names a host that is not empty, holds no slash and fits the
-- buffer with its terminator, and a port from 1 to 65535; and behind the prefix it is that host, a slash, at
-- least one and at most five more bytes, and a slash at the very end.
pub parse_path-bounds :
    (cap : ℕ) (path host : List ℕ) (port : ℕ)
    → parse_path cap path ≡ some (host, port)
    → (0 < length host)
      × (length host < cap)
      × NoSlash host
      × (1 ≤ port)
      × (port ≤ 65535)
      × ((digits : List ℕ) × (drop 23 path ≡ host ++ 47 ∷ (digits ++ 47 ∷ []))
          × (0 < length digits)
          × (length digits ≤ 5))
unfolding parse_path
parse_path-bounds cap path host port h =
    elim (Bool-cases (leb (length path) 23 || not (same_bytes (take 23 path) path_prefix))) [
      | inl refused ↦ absurd (ground (arith, refused, h))
      | inr prefixed ↦ elim (Option-cases (split_at 47 (drop 23 path))) [
        | inl no_host ↦ absurd (ground (arith, prefixed, no_host, h))
        | inr ((host', after_host), first) ↦ elim (Option-cases (split_at 47 after_host)) [
          | inl no_port ↦ absurd (ground (arith, prefixed, first, no_port, h))
          | inr ((digits, after_port), second) ↦
              elim (Bool-cases
                (length host' == 0 || leb cap (length host') || not (length after_port == 0))) [
                  | inl bad ↦ absurd (ground (arith, prefixed, first, second, bad, h))
                  | inr good ↦ elim (Option-cases (checked_port digits)) [
                    | inl no_number ↦
                        absurd (ground (arith, prefixed, first, second, good, no_number, h))
                    | inr (p, value) ↦
                        let is_host : host' ≡ host =
                          ground (arith, prefixed, first, second, good, value, h) in
                        let is_port : p ≡ port =
                          ground (arith, prefixed, first, second, good, value, h) in
                        let (plain, split_1) = split_at_lem (drop 23 path) host' after_host first in
                        let (_, split_2) = split_at_lem after_host digits after_port second in
                        let at_end : after_port ≡ [] =
                          nothing_left after_port (ground (arith, good)) in
                        let (low, high) = checked_port-range digits p value in
                        let (some_digits, five) = checked_port-length digits p value in
                        let size : length host' ≡ length host = ap length is_host in
                        (
                          ground (arith, good, size),
                          ground (arith, good, size),
                          subst NoSlash is_host plain,
                          omega (arith, low, is_port),
                          omega (arith, high, is_port),
                          (
                            digits,
                            ground (arith, split_1, split_2, at_end, is_host),
                            some_digits,
                            five,
                          ),
                        )
                  ]
                ]
        ]
      ]
    ]
