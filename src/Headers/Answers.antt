-- ===== src/Headers/Answers.antt =====
-- getBlockHeader and getBlockHeaders of electrumx/headers.go, over headers that hold one chain.
use go_electrum_client.Prelude.{
  ℕ, zero, suc, ◌^◌, ◌<◌, ◌≡◌, refl, ap, ◌∙◌, sym, ◌⊎◌, inl, inr, Option, some, List, [], ◌∷◌,
  arith, Bool-cases, length,
}
use native.Mathlib.Decide.{dec_lt}
use go_electrum_client.Prelude.Int.{
  ℤ, pos, pos_part, ◌+ℤ◌, ◌-ℤ◌, ◌≤ℤ◌, ◌<ℤ◌, ltb_ℤ, not_ltb_ℤ, lt_of_ltb_ℤ, int_laws, parts,
  distance, offset, IsInt64, wrap64, wrap64_of_IsInt64, wrap64_overflow, ltb_ℤ_of_le,
}
use go_electrum_client.Prelude.Results.{Result, ok, err}
use go_electrum_client.Headers.{
  BlockHeader, ClientBlockHeader, Headers, Error, no_header, before_start, past_tip, range_past_tip,
}
use go_electrum_client.Headers.Chain.{Entry, Stored, InMaps}
use go_electrum_client.Headers.Reads.{client_header, get_block_header, collect, get_block_headers}

-- Within the chain every height has a header.
Stored-at :
    (h : Headers) (m : ℤ → Option BlockHeader) (c : List Entry) (i : ℕ)
    → Stored h m c
    → i < length c
    → (b : BlockHeader) × (m (h.start_point +ℤ pos i) ≡ some b)
Stored-at h m [] i s lt = absurd (omega arith)
Stored-at h m (e ∷ c) i s lt = elim (dec_lt i (length c)) [
  | yes below ↦ Stored-at h m c i s.4 below
  | no top ↦
      let same : length c ≡ i = omega arith in
      (e.header, ap (λ k. m (h.start_point +ℤ pos k)) (sym same) ∙ s.2)
]

pub header_in_range :
    (h : Headers) (c : List Entry) (j : ℤ)
    → InMaps h c
    → h.start_point ≤ℤ j
    → j ≤ℤ h.tip
    → (b : BlockHeader) × (h.hdrs j ≡ some b)
header_in_range h c j i ge le =
    let k : ℕ = pos_part (j -ℤ h.start_point) in
    let (b, e) =
      Stored-at h h.hdrs c k i.stored
        (omega (int_laws, distance j h.start_point, parts i.at_tip)) in
    (b, ap h.hdrs (sym (offset h.start_point j ge)) ∙ e)

-- getBlockHeader answers with the header at a height from the start point to the tip, and fails
-- with the height in its error outside of that range.
pub get_block_header_range :
    (h : Headers) (c : List Entry) (j : ℤ)
    → InMaps h c
    → ((h.start_point ≤ℤ j)
        × (j ≤ℤ h.tip)
        × (b : BlockHeader) × (h.hdrs j ≡ some b)
        × (get_block_header h j ≡ ok (client_header b)))
      ⊎ (((j <ℤ h.start_point) ⊎ (h.tip <ℤ j)) × (get_block_header h j ≡ err (no_header j)))
unfolding get_block_header
get_block_header_range h c j i = elim (Bool-cases (ltb_ℤ j h.start_point)) [
  | inl low ↦
      let lt = lt_of_ltb_ℤ j h.start_point low in
      inr (inl lt, rw (i.nowhere_else j (inl lt), get_block_header))
  | inr ge ↦ elim (Bool-cases (ltb_ℤ h.tip j)) [
    | inl high ↦
        let lt = lt_of_ltb_ℤ h.tip j high in
        inr (inr lt, rw (i.nowhere_else j (inr lt), get_block_header))
    | inr le ↦
        let from = not_ltb_ℤ j h.start_point ge in
        let to = not_ltb_ℤ h.tip j le in
        let (b, e) = header_in_range h c j i from to in
        inl (from, to, b, e, rw (e, get_block_header))
  ]
]

-- The headers of the heights from `i` on, as the client sees them.
abbrev pub Served : Headers → ℤ → List ClientBlockHeader → Type 0
Served h i [] = Unit {0}
Served h i (x ∷ xs) =
    ((b : BlockHeader) × (h.hdrs i ≡ some b) × (x ≡ client_header b)) × Served h (i +ℤ pos 1) xs

collect_lem :
    (h : Headers) (i : ℤ) (n : ℕ)
    → ((k : ℕ) → k < n → (b : BlockHeader) × (h.hdrs (i +ℤ pos k) ≡ some b))
    → (bs : List ClientBlockHeader) × (collect h i n ≡ ok bs) × (length bs ≡ n) × Served h i bs
unfolding collect
collect_lem h i zero there = ([], refl, refl, tt)
collect_lem h i (suc n) there =
    let here : i +ℤ pos 0 ≡ i = omega int_laws in
    let up : (k : ℕ) → i +ℤ pos 1 +ℤ pos k ≡ i +ℤ pos (suc k) = λ k. omega int_laws in
    let (b, e) = there 0 (omega arith) in
    let found : h.hdrs i ≡ some b = ap h.hdrs (sym here) ∙ e in
    let (bs, run, size, served) =
      collect_lem h (i +ℤ pos 1) n
        (λ k lt. let (x, q) = there (suc k) (omega arith) in (x, ap h.hdrs (up k) ∙ q)) in
    (client_header b ∷ bs, rw (found, run), ap suc size, ((b, found, refl), served))

-- What getBlockHeaders may answer.
abbrev pub Answers : Headers → ℤ → ℤ → Result Error (List ClientBlockHeader) → Type 0
Answers h start count (ok bs) =
    (h.start_point ≤ℤ start)
    × (start ≤ℤ h.tip)
    × (start +ℤ count ≤ℤ h.tip)
    × (length bs ≡ pos_part count)
    × Served h start bs
Answers h start count (err before_start) = start <ℤ h.start_point
Answers h start count (err past_tip) = h.tip <ℤ start
Answers h start count (err range_past_tip) = h.tip <ℤ start +ℤ count
Answers h start count _ = ⊥

-- Where the sum of the start height and the count fits an int64, getBlockHeaders answers with
-- exactly `count` headers (none for a negative count), the stored ones from the start height on, if
-- the start height lies between the start point and the tip and the range ends at or below the
-- tip; otherwise with the error that says which bound was missed. It never panics.
pub get_block_headers-Answers :
    (h : Headers) (c : List Entry) (start count : ℤ)
    → InMaps h c
    → IsInt64 (start +ℤ count)
    → Answers h start count (get_block_headers h start count)
unfolding get_block_headers
get_block_headers-Answers h c start count i fits = elim (Bool-cases (ltb_ℤ start h.start_point)) [
  | inl low ↦ rw (low, Answers) (lt_of_ltb_ℤ start h.start_point low)
  | inr ge ↦ elim (Bool-cases (ltb_ℤ h.tip start)) [
    | inl high ↦ rw (ge, high, Answers) (lt_of_ltb_ℤ h.tip start high)
    | inr le ↦ elim (Bool-cases (ltb_ℤ h.tip (start +ℤ count))) [
      | inl past ↦
          rw (wrap64_of_IsInt64 (start +ℤ count) fits, ge, le, past, Answers)
            (lt_of_ltb_ℤ h.tip (start +ℤ count) past)
      | inr within ↦
          let sum : start +ℤ count -ℤ start ≡ count = omega int_laws in
          let end_ = not_ltb_ℤ h.tip (start +ℤ count) within in
          let from = not_ltb_ℤ start h.start_point ge in
          let (bs, run, size, served) =
            collect_lem h start (pos_part (start +ℤ count -ℤ start)) (λ k lt.
              header_in_range h c (start +ℤ pos k) i (omega int_laws)
                (omega (int_laws, distance (start +ℤ count) start))) in
          rw (wrap64_of_IsInt64 (start +ℤ count) fits, ge, le, within, run, Answers)
            (from, not_ltb_ℤ h.tip start le, end_, size ∙ ap pos_part sum, served)
    ]
  ]
]

-- Where the sum overflows an int64, a range that ends far above the tip gets an empty answer and no
-- error: the test of the range's end sees the wrapped sum.
pub get_block_headers_overflow :
    (h : Headers) (start count : ℤ)
    → pos 0 ≤ℤ h.start_point
    → h.start_point ≤ℤ start
    → start ≤ℤ h.tip
    → IsInt64 start
    → IsInt64 count
    → pos (2 ^ 63) ≤ℤ start +ℤ count
    → get_block_headers h start count ≡ ok []
unfolding get_block_headers collect
get_block_headers_overflow h start count nonneg from to sz cz big =
    let end_ = wrap64 (start +ℤ count) in
    let below = wrap64_overflow (start +ℤ count) big (omega int_laws) in
    let rounds : pos_part (end_ -ℤ start) ≡ 0 = omega (arith, distance end_ start) in
    rw (
      ltb_ℤ_of_le start h.start_point from,
      ltb_ℤ_of_le h.tip start to,
      ltb_ℤ_of_le h.tip end_ (omega arith),
      rounds,
      collect,
    )
