-- ===== src/NodeHeaders/Updates.antt =====
-- The update loops of electrumx/node_headers.go, over the chain that the headers represent.
use go_electrum_client.Prelude.{
  ℕ, zero, suc, ◌*◌, ◌≡◌, refl, sym, subst, ◌⊎◌, inl, inr, Bool, true, false, Option, List, [], ◌∷◌,
  ◌++◌, arith, Bool-cases, Option-cases, length, length-append, drop, take, ltb, if◌then◌else◌,
}
use mathlib.Core.List.{append_assoc}
use go_electrum_client.Prelude.Int.{ℤ, pos, pos_part, ◌+ℤ◌, ◌-ℤ◌, ltb_ℤ}
use go_electrum_client.Prelude.Results.{Result, ok, err, panic, ◌>>=◌}
use go_electrum_client.Headers.{Disk, Error}
use go_electrum_client.Headers.Chain.{Entry, Linked, Represents}
use go_electrum_client.NodeHeaders.{Node, Server, HeadersResult, rewind, connect_tip}
use go_electrum_client.NodeHeaders.Recovery.{Rewound}
use go_electrum_client.NodeHeaders.Connect.{Connects, connect_tip-Connects}
use go_electrum_client.NodeHeaders.Queue.{
  node_block_header, node_block_headers, update_from_blocks, connect_chunk, is_good_chunk,
  update_from_chunk, sync_headers_onto_our_tip,
}

-- Each of the headers, newest first, names the hash of the one below it, down to the chain.
abbrev pub OnTop : List Entry → List Entry → Type 0
OnTop [] c = Unit {0}
OnTop (e ∷ es) c = Linked e (es ++ c) × OnTop es c

OnTop-snoc :
    (es : List Entry) (e : Entry) (c : List Entry)
    → Linked e c
    → OnTop es (e ∷ c)
    → OnTop (es ++ e ∷ []) c
OnTop-snoc [] e c link on = (link, tt)
OnTop-snoc (x ∷ es) e c link on =
    (subst (Linked x) (sym (append_assoc es (e ∷ []) c)) on.0, OnTop-snoc es e c link on.1)

-- What a run of connectTip may do to a node on chain `c`, with the number of headers connected:
-- those go on top of the chain, linked, and a header that does not connect may then rewind it.
abbrev pub Updates : List Entry → Result Error (Node × ℕ) → Type 0
Updates c (ok (m, k)) =
    (es : List Entry) × (length es ≡ k)
    × OnTop es c
    × (Represents m.headers (es ++ c) ⊎ ((tip : ℤ) × Rewound m.headers (es ++ c) tip))
Updates c (err e) = ⊥
Updates c panic = Unit {0}

-- The common step of both loops: one connectTip, and the rest of the loop if it connected.
module _ (n : Node) (c : List Entry) (s : List ℕ) where
  step_loop :
      (Node → Result Error (Node × ℕ)) → Result Error (Node × Bool) → Result Error (Node × ℕ)
  step_loop rest r = do
    (m, connected) ← r
    let more = do (m', k) ← rest m; ok (m', suc k)
    if connected then more else ok (m, 0)

  Updates-suc :
      (e : Entry) (r : Result Error (Node × ℕ))
      → Linked e c
      → Updates (e ∷ c) r
      → Updates c (r >>= λ p. ok (p.0, suc p.1))
  Updates-suc e (ok (m, k)) link (es, size, on, after) = (
    es ++ e ∷ [],
    omega (arith, length-append es (e ∷ [])),
    OnTop-snoc es e c link on,
    subst (λ l. Represents m.headers l ⊎ ((tip : ℤ) × Rewound m.headers l tip))
        (sym (append_assoc es (e ∷ []) c)) after,
  )
  Updates-suc e (err x) link u = u
  Updates-suc e panic link u = u

  step_loop-Updates :
      (rest : Node → Result Error (Node × ℕ)) (r : Result Error (Node × Bool))
      → Represents n.headers c
      → Connects n c s r
      → ((m : Node) (e : Entry) → Represents m.headers (e ∷ c) → Updates (e ∷ c) (rest m))
      → Updates c (step_loop rest r)
  unfolding step_loop
  step_loop-Updates rest (ok (m, true)) r (e, text, grown, over) go =
      Updates-suc e (rest m) grown.maps.stored.3 (go m e grown)
  step_loop-Updates rest (ok (m, false)) r (inl same) go = ([], refl, tt, inl (rw same r))
  step_loop-Updates rest (ok (m, false)) r (inr back) go = ([], refl, tt, inr (n.headers.tip, back))
  step_loop-Updates rest (err e) r h go = h
  step_loop-Updates rest panic r h go = tt

node_block_header-headers :
    (v : Server) (n : Node) (i : ℤ) → (node_block_header v n i).0.headers ≡ n.headers
unfolding node_block_header
node_block_header-headers v n i = ground arith

node_block_headers-headers :
    (v : Server) (n : Node) (i : ℤ) (k : ℕ) → (node_block_headers v n i k).0.headers ≡ n.headers
unfolding node_block_headers
node_block_headers-headers v n i k = ground arith

update_from_blocks-Updates :
    (d : Disk) (v : Server) (k : ℕ) (i : ℤ) (n : Node) (c : List Entry)
    → Represents n.headers c
    → Updates c (update_from_blocks d v k i n)
unfolding update_from_blocks step_loop
update_from_blocks-Updates d v zero i n c r = ([], refl, tt, inl r)
update_from_blocks-Updates d v (suc k) i n c r =
    let p : Node × Option (List ℕ) = node_block_header v n i in
    let asked : Represents p.0.headers c =
      subst (λ h. Represents h c) (sym (node_block_header-headers v n i)) r in
    elim (Option-cases p.1) [
      | inl gone ↦ rw (gone, Updates) ([], refl, tt, inl asked)
      | inr (s, e) ↦
          rw (e, Updates)
            (step_loop-Updates p.0 c s (update_from_blocks d v k (i +ℤ pos 1)) (connect_tip d p.0 s)
              asked (connect_tip-Connects d p.0 c s asked)
              (λ m x grown. update_from_blocks-Updates d v k (i +ℤ pos 1) m (x ∷ c) grown))
    ]

connect_chunk-Updates :
    (d : Disk) (len k : ℕ) (s : List ℕ) (n : Node) (c : List Entry)
    → Represents n.headers c
    → Updates c (connect_chunk d len k s n)
unfolding connect_chunk step_loop
connect_chunk-Updates d len zero s n c r = ([], refl, tt, inl r)
connect_chunk-Updates d len (suc k) s n c r = elim (Bool-cases (ltb (length s) len)) [
  | inl short ↦ rw (short, Updates) tt
  | inr fits ↦
      rw (fits, Updates)
        (step_loop-Updates n c (take len s) (connect_chunk d len k (drop len s))
          (connect_tip d n (take len s)) r (connect_tip-Connects d n c (take len s) r)
          (λ m e grown. connect_chunk-Updates d len k (drop len s) m (e ∷ c) grown))
]

Updates-if :
    (c : List Entry) (b : Bool) (x y : Result Error (Node × ℕ))
    → Updates c x
    → Updates c y
    → Updates c (if b then x else y)
Updates-if c true x y u v = u
Updates-if c false x y u v = v

update_from_chunk-Updates :
    (d : Disk) (v : Server) (from to : ℤ) (n : Node) (c : List Entry)
    → Represents n.headers c
    → Updates c (update_from_chunk d v from to n)
unfolding update_from_chunk
update_from_chunk-Updates d v from to n c r =
    let k : ℕ = pos_part (to -ℤ from +ℤ pos 1) in
    let p : Node × Option HeadersResult = node_block_headers v n from k in
    let asked : Represents p.0.headers c =
      subst (λ h. Represents h c) (sym (node_block_headers-headers v n from k)) r in
    let idle : Updates c (ok (p.0, 0)) = ([], refl, tt, inl asked) in
    elim (Option-cases p.1) [
      | inl gone ↦ rw (gone, Updates) ([], refl, tt, inl asked)
      | inr (x, e) ↦
          rw (e, Updates)
            (Updates-if c (is_good_chunk (n.headers.header_size * 2) k x)
              (connect_chunk d (n.headers.header_size * 2) (pos_part x.count) x.hex_concat p.0)
              (ok (p.0, 0))
              (connect_chunk-Updates d (n.headers.header_size * 2) (pos_part x.count) x.hex_concat
                p.0 c asked)
              idle)
    ]

-- Whatever the server answers while a node catches up, in one chunk or block by block, unless it
-- panics: the number that is returned is the number of headers that went on top of the chain, each
-- of which names the hash of the one below it; at most one rewind of eight headers follows them;
-- and no error is returned.
pub sync_headers_onto_our_tip-Updates :
    (d : Disk) (v : Server) (height : ℤ) (n : Node) (c : List Entry)
    → Represents n.headers c
    → Updates c (sync_headers_onto_our_tip d v height n)
unfolding sync_headers_onto_our_tip
sync_headers_onto_our_tip-Updates d v height n c r = elim (Bool-cases far) [
  | inl more ↦
      rw (more, Updates) (update_from_chunk-Updates d v (n.headers.tip +ℤ pos 1) height n c r)
  | inr few ↦
      rw (few, Updates)
        (update_from_blocks-Updates d v (pos_part (height -ℤ n.headers.tip))
          (n.headers.tip +ℤ pos 1) n c r)
]
  where
    far : Bool
    far = ltb_ℤ (pos rewind) (height -ℤ n.headers.tip)
