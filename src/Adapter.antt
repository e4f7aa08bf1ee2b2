-- ===== src/Adapter.antt =====
-- pg/src/fpga_adapter.cpp: the bridge between the PostgreSQL extension and the host library. A C
-- string is the list of its bytes, a null pointer the empty one, which the code treats alike.
use fpga_postgresql_hash_joi.Types.{
  ht_max_rows, grace_words_per_tuple, grace_max_k, grace_outer_area_base, grace_ddr2_total_words,
  grace_max_inner_rows, algorithm_a, algorithm_b, InputTuple,
}
use fpga_postgresql_hash_joi.Base.Words.{u16, u64, add64}
use fpga_postgresql_hash_joi.Base.{
  ℕ, ◌+◌, ◌-◌, ◌*◌, ◌/◌, ◌^◌, ◌⊎◌, inl, inr, Bool, true, false, not, ◌&&◌, ◌||◌, Option, none, some,
  List, [], ◌∷◌, ltb, leb, ◌==◌, if◌then◌else◌,
}
use fpga_postgresql_hash_joi.Host.Transport.{Exception, bad_port, bad_host, unsupported_algorithm}
use Prim.Native.Nat.{min}
pub mod Prepare
pub mod Run
pub mod Dedup
pub mod Fits
pub mod Reports
pub mod Simulated
pub mod Endpoint

-- The names, as ASCII: "a", "A", "algorithm_a", "linear", then "b", "B", "algorithm_b", "grace",
-- then "udp" and "uart".
abbrev pub names_a : List (List ℕ)
names_a =
    (97 ∷ [])
    ∷ (65 ∷ [])
    ∷ (97 ∷ 108 ∷ 103 ∷ 111 ∷ 114 ∷ 105 ∷ 116 ∷ 104 ∷ 109 ∷ 95 ∷ 97 ∷ [])
    ∷ (108 ∷ 105 ∷ 110 ∷ 101 ∷ 97 ∷ 114 ∷ [])
    ∷ []

abbrev pub names_b : List (List ℕ)
names_b =
    (98 ∷ [])
    ∷ (66 ∷ [])
    ∷ (97 ∷ 108 ∷ 103 ∷ 111 ∷ 114 ∷ 105 ∷ 116 ∷ 104 ∷ 109 ∷ 95 ∷ 98 ∷ [])
    ∷ (103 ∷ 114 ∷ 97 ∷ 99 ∷ 101 ∷ [])
    ∷ []

abbrev pub name_udp : List ℕ
name_udp = 117 ∷ 100 ∷ 112 ∷ []

abbrev pub name_uart : List ℕ
name_uart = 117 ∷ 97 ∷ 114 ∷ 116 ∷ []

abbrev pub colon : ℕ
colon = 58

abbrev pub udp_port : ℕ
udp_port = 50_000

abbrev pub str_eq : List ℕ → List ℕ → Bool
str_eq [] [] = true
str_eq [] (b ∷ bs) = false
str_eq (a ∷ xs) [] = false
str_eq (a ∷ xs) (b ∷ bs) = a == b && str_eq xs bs

abbrev pub any_eq : List ℕ → List (List ℕ) → Bool
any_eq name [] = false
any_eq name (n ∷ ns) = str_eq name n || any_eq name ns

-- The default of an empty name.
abbrev pub or_default : List ℕ → List ℕ → List ℕ
or_default [] d = d
or_default (c ∷ cs) d = c ∷ cs

unfoldable pub parse_algorithm : List ℕ → Exception ⊎ ℕ
parse_algorithm algorithm_name =
    let name = or_default algorithm_name (97 ∷ []) in
    if any_eq name names_a
    then inr algorithm_a
    else if any_eq name names_b
    then inr algorithm_b
    else inl (unsupported_algorithm name)

pub record UdpEndpoint : Type 0 where
  pub host : List ℕ
  pub port : ℕ

-- `rfind(':')`, as the text before and behind the last colon.
unfoldable pub split_last : List ℕ → Option (List ℕ × List ℕ)
split_last [] = none
split_last (c ∷ cs) = elim (split_last cs) [
  | some (before, behind) ↦ some (c ∷ before, behind)
  | none ↦ if c == colon then some ([], cs) else none
]

abbrev pub is_digit : ℕ → Bool
is_digit c = leb 48 c && leb c 57

abbrev pub all_digits : List ℕ → Bool
all_digits [] = true
all_digits (c ∷ cs) = is_digit c && all_digits cs

-- `strtoul` of digits, from the value so far; it stops at the largest value.
unfoldable pub strtoul : ℕ → List ℕ → ℕ
strtoul v [] = v
strtoul v (c ∷ cs) = strtoul (min (2 ^ 64 - 1) (v * 10 + (c - 48))) cs

unfoldable pub parse_udp_endpoint : List ℕ → Exception ⊎ UdpEndpoint
unfolding split_last strtoul
parse_udp_endpoint device = elim (split_last device) [
  | none ↦ inr (record { host = device; port = udp_port })
  | some (before, port_text) ↦
      if str_eq port_text [] || not (all_digits port_text)
      then inr (record { host = device; port = udp_port })
      else (let port = strtoul 0 port_text in
          if port == 0 || ltb 65535 port
          then inl bad_port
          else if str_eq before []
          then inl bad_host
          else inr (record { host = before; port = u16 port }))
]

-- The host's test of the DDR2 layout, in 64 bits.
unfoldable pub grace_ddr_layout_fits : ℕ → ℕ → Bool
grace_ddr_layout_fits inner_count outer_count =
    if ltb grace_max_inner_rows inner_count
    then false
    else (let n = u64 (inner_count + ht_max_rows - 1) / ht_max_rows in
        let k = if n == 0 then 1 else n in
        if ltb grace_max_k k
        then false
        else (let outer_slot_words = u64 (add64 (outer_count / k) 1 * grace_words_per_tuple * 2) in
            leb (u64 (grace_outer_area_base + u64 (k * outer_slot_words))) grace_ddr2_total_words))

abbrev pub contains : ℕ → List ℕ → Bool
contains key [] = false
contains key (k ∷ ks) = key == k || contains key ks

-- The loop over the inner rows, with the keys seen.
unfoldable pub dedup_rows : List ℕ → List InputTuple → List InputTuple
dedup_rows seen [] = []
dedup_rows seen (t ∷ ts) = elim (contains t.key seen) [
  | true ↦ dedup_rows seen ts
  | false ↦ t ∷ dedup_rows (t.key ∷ seen) ts
]

unfoldable pub dedup_inner : List InputTuple → List InputTuple
unfolding dedup_rows
dedup_inner inner = dedup_rows [] inner
