-- ===== src/Adapter/Endpoint.antt =====
-- The endpoint of the UDP transport that the device's name gives.

use fpga_postgresql_hash_joi.Base.Words.{u16}
use fpga_postgresql_hash_joi.Base.{
  ℕ, ◌+◌, ◌-◌, ◌*◌, ◌^◌, ◌≤◌, ◌<◌, ◌≡◌, refl, sym, ap, ◌∙◌, ◌≢◌, ◌⊎◌, inl, inr, true, false, ◌||◌,
  none, some, List, [], ◌∷◌, ◌++◌, arith, ltb, leb, ◌==◌, if◌then◌else◌, leb→le, Bool-cases,
}
use Prim.Native.Nat.{min}
use mathlib.Core.Path.{subst}
use fpga_postgresql_hash_joi.Host.Transport.{Exception, bad_port, bad_host}
use fpga_postgresql_hash_joi.Adapter.{
  strtoul, colon, str_eq, UdpEndpoint, split_last, is_digit, all_digits, parse_udp_endpoint,
}

-- The number that digits write, behind the value so far.
abbrev pub decimal : ℕ → List ℕ → ℕ
decimal v [] = v
decimal v (c ∷ cs) = decimal (v * 10 + (c - 48)) cs

decimal-le : (v : ℕ) (cs : List ℕ) → v ≤ decimal v cs
decimal-le v [] = omega arith
decimal-le v (c ∷ cs) = omega (arith, decimal-le (v * 10 + (c - 48)) cs)

-- Up to the largest value nothing is cut, and what is cut is at least as large.
strtoul-small : (v : ℕ) (cs : List ℕ) → decimal v cs ≤ 2 ^ 64 - 1 → strtoul v cs ≡ decimal v cs
unfolding strtoul
strtoul-small v [] h = refl
strtoul-small v (c ∷ cs) h =
    let next = v * 10 + (c - 48) in
    let uncut : min (2 ^ 64 - 1) next ≡ next = omega (arith, decimal-le next cs, h) in
    ap (λ x. strtoul x cs) uncut ∙ strtoul-small next cs h

strtoul-le : (v : ℕ) (cs : List ℕ) → v ≤ 2 ^ 64 - 1 → v ≤ strtoul v cs
unfolding strtoul
strtoul-le v [] h = omega arith
strtoul-le v (c ∷ cs) h =
    omega (arith, strtoul-le (min (2 ^ 64 - 1) (v * 10 + (c - 48))) cs (omega arith))

strtoul-large : (v : ℕ) (cs : List ℕ) → v ≤ 2 ^ 64 - 1 → 65535 < decimal v cs → 65535 < strtoul v cs
unfolding strtoul
strtoul-large v [] h large = large
strtoul-large v (c ∷ cs) h large =
    let next = v * 10 + (c - 48) in
    elim (Bool-cases (leb next (2 ^ 64 - 1))) [
      | inl le ↦
          let uncut : min (2 ^ 64 - 1) next ≡ next = ground (arith, le) in
          subst (λ x. 65535 < strtoul x cs) (sym uncut)
            (strtoul-large next cs (leb→le next (2 ^ 64 - 1) le) large)
      | inr over ↦
          let cut : min (2 ^ 64 - 1) next ≡ 2 ^ 64 - 1 = ground (arith, over) in
          subst (λ x. 65535 < strtoul x cs) (sym cut)
            (omega (arith, strtoul-le (2 ^ 64 - 1) cs (omega arith)))
    ]

split_last-digits : (ds : List ℕ) → all_digits ds ≡ true → split_last ds ≡ none
unfolding split_last
split_last-digits [] h = refl
split_last-digits (d ∷ ds) h =
    let here : is_digit d ≡ true = ground (arith, h) in
    let rest : all_digits ds ≡ true = ground (arith, h) in
    let other : (d == colon) ≡ false = ground (arith, here) in
    rw (split_last, split_last-digits ds rest, other) refl

split_last-append :
    (host ds : List ℕ) → all_digits ds ≡ true → split_last (host ++ (colon ∷ ds)) ≡ some (host, ds)
unfolding split_last
split_last-append [] ds h = rw (split_last, split_last-digits ds h) refl
split_last-append (c ∷ cs) ds h = rw (split_last, split_last-append cs ds h) refl

parse_digits :
    (host ds : List ℕ) (d : ℕ)
    → all_digits (d ∷ ds) ≡ true
    → parse_udp_endpoint (host ++ (colon ∷ d ∷ ds)) ≡ (
        if strtoul 0 (d ∷ ds) == 0 || ltb 65535 (strtoul 0 (d ∷ ds))
        then inl bad_port
        else if str_eq host []
        then inl bad_host
        else inr (record { host = host; port = u16 (strtoul 0 (d ∷ ds)) }))
unfolding parse_udp_endpoint
parse_digits host ds d h = rw (parse_udp_endpoint, split_last-append host (d ∷ ds) h, h) refl

some_text : (host : List ℕ) → host ≢ [] → str_eq host [] ≡ false
some_text [] h = absurd (h refl)
some_text (c ∷ cs) h = refl

-- What is parsed of a host and the digits of a port, which write this number.
pub record Parsed (host : List ℕ) (port : ℕ) (r : Exception ⊎ UdpEndpoint) : Type 0 where
  pub no_port : (port ≡ 0) ⊎ (65535 < port) → r ≡ inl bad_port
  pub no_host : 0 < port → port ≤ 65535 → host ≡ [] → r ≡ inl bad_host
  pub both : 0 < port → port ≤ 65535 → host ≢ [] → r ≡ inr (record { host = host; port = port })

-- The device's name, of a host, a colon and at least one digit: it gives the host and the number
-- that the digits write, or an error if the number is no port or the host is empty. The host may
-- have colons, and the number may be of any size.
pub parse_udp_endpoint-Parsed :
    (host ds : List ℕ) (d : ℕ)
    → all_digits (d ∷ ds) ≡ true
    → Parsed host (decimal 0 (d ∷ ds)) (parse_udp_endpoint (host ++ (colon ∷ d ∷ ds)))
parse_udp_endpoint-Parsed host ds d h =
    let run = parse_digits host ds d h in
    record {
      no_port = λ bad. run ∙ rw (refused bad) refl;
      no_host = λ pos few e. run ∙ rw (taken pos few, ap (λ q. str_eq q []) e) refl;
      both = λ pos few some_host.
          run
          ∙ rw (taken pos few, some_text host some_host)
              (ap (λ p. inr (record { host = host; port = p })) (same_port few));
    }
  where
    same_port : decimal 0 (d ∷ ds) ≤ 65535 → u16 (strtoul 0 (d ∷ ds)) ≡ decimal 0 (d ∷ ds)
    same_port few =
        let same = strtoul-small 0 (d ∷ ds) (omega (arith, few)) in omega (arith, same, few)

    taken :
        0 < decimal 0 (d ∷ ds)
        → decimal 0 (d ∷ ds) ≤ 65535
        → (strtoul 0 (d ∷ ds) == 0 || ltb 65535 (strtoul 0 (d ∷ ds))) ≡ false
    taken pos few =
        let same = strtoul-small 0 (d ∷ ds) (omega (arith, few)) in ground (arith, same, pos, few)

    refused :
        (decimal 0 (d ∷ ds) ≡ 0) ⊎ (65535 < decimal 0 (d ∷ ds))
        → (strtoul 0 (d ∷ ds) == 0 || ltb 65535 (strtoul 0 (d ∷ ds))) ≡ true
    refused (inl z) =
        let same = strtoul-small 0 (d ∷ ds) (omega (arith, z)) in ground (arith, same, z)
    refused (inr large) =
        let over = strtoul-large 0 (d ∷ ds) (omega arith) large in ground (arith, over)
