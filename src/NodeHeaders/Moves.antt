-- ===== src/NodeHeaders/Moves.antt =====
-- The header queue of electrumx/node_headers.go as moves of one linked chain.
use go_electrum_client.Prelude.{
  ℕ, ◌<◌, inl, inr, Bool, true, false, List, [], ◌∷◌, ◌++◌, Option-cases, length, drop, ltb,
  if◌then◌else◌,
}
use go_electrum_client.Prelude.Int.{pos, ◌+ℤ◌, ltb_ℤ, leb_ℤ, eqb_ℤ}
use go_electrum_client.Prelude.Results.{Result, ok, err, panic, ◌>>=◌}
use go_electrum_client.Session.{bump_cost_string}
use go_electrum_client.Headers.{Disk, Error}
use go_electrum_client.Headers.Chain.{Entry, Linked, Represents}
use go_electrum_client.NodeHeaders.{Node, Server, HeadersNotify, rewind, connect_tip}
use go_electrum_client.NodeHeaders.Connect.{Connects, connect_tip-Connects}
use go_electrum_client.NodeHeaders.Queue.{
  sync_headers_onto_our_tip, notify, handle_header, Queued, header_queue,
}
use go_electrum_client.NodeHeaders.Updates.{Updates, OnTop, sync_headers_onto_our_tip-Updates}

-- The chain changes only by headers that go on top, where each names the hash of the one that it
-- goes on, and by rewinds of eight headers of a chain of more.
pub data Moves (c : List Entry) : List Entry → Type 0 where
  stay : Moves c c
  push : {b : List Entry} → Moves c b → (e : Entry) → Linked e b → Moves c (e ∷ b)
  back : {b : List Entry} → Moves c b → rewind < length b → Moves c (drop rewind b)

Moves-trans : {a b c : List Entry} → Moves a b → Moves b c → Moves a c
Moves-trans m stay = m
Moves-trans m (push k e link) = push (Moves-trans m k) e link
Moves-trans m (back k deep) = back (Moves-trans m k) deep

Moves-append : (c es : List Entry) → OnTop es c → Moves c (es ++ c)
Moves-append c [] on = stay
Moves-append c (e ∷ es) on = push (Moves-append c es on.1) e on.0

-- A node that follows its server's notifications: some moves of the chain, and no error.
abbrev pub Follows : List Entry → Result Error Node → Type 0
Follows c (ok m) = (b : List Entry) × Moves c b × Represents m.headers b
Follows c (err e) = ⊥
Follows c panic = Unit {0}

Follows-if :
    (c : List Entry) (b : Bool) (x y : Result Error Node)
    → Follows c x
    → Follows c y
    → Follows c (if b then x else y)
Follows-if c true x y u v = u
Follows-if c false x y u v = v

-- The branch of one header.
after_connect : List ℕ → Result Error (Node × Bool) → Result Error Node
after_connect s r = do
  (m, connected) ← r
  if connected then ok (notify (record m { cost = bump_cost_string m.cost s })) else ok m

after_connect-Follows :
    (n : Node) (c : List Entry) (s : List ℕ) (r : Result Error (Node × Bool))
    → Represents n.headers c
    → Connects n c s r
    → Follows c (after_connect s r)
unfolding after_connect
after_connect-Follows n c s (ok (m, true)) r (e, text, grown, over) =
    (e ∷ c, push stay e grown.maps.stored.3, grown)
after_connect-Follows n c s (ok (m, false)) r (inl same) = (c, stay, rw same r)
after_connect-Follows n c s (ok (m, false)) r (inr b) =
    (drop rewind c, back stay b.deep, b.represents)
after_connect-Follows n c s (err e) r h = h
after_connect-Follows n c s panic r h = tt

-- The branch of two or more.
after_sync : Result Error (Node × ℕ) → Result Error Node
after_sync r = do (m, num) ← r; if ltb 0 num then ok (notify m) else ok m

after_sync-Follows :
    (c : List Entry) (r : Result Error (Node × ℕ)) → Updates c r → Follows c (after_sync r)
unfolding after_sync
after_sync-Follows c (ok (m, k)) (es, size, on, inl grown) =
    Follows-if c (ltb 0 k) (ok (notify m)) (ok m) (es ++ c, Moves-append c es on, grown)
      (es ++ c, Moves-append c es on, grown)
after_sync-Follows c (ok (m, k)) (es, size, on, inr (tip, b)) =
    let moved = back (Moves-append c es on) b.deep in
    Follows-if c (ltb 0 k) (ok (notify m)) (ok m) (drop rewind (es ++ c), moved, b.represents)
      (drop rewind (es ++ c), moved, b.represents)
after_sync-Follows c (err e) h = h
after_sync-Follows c panic h = tt

handle_header-Follows :
    (d : Disk) (v : Server) (x : HeadersNotify) (n : Node) (c : List Entry)
    → Represents n.headers c
    → Follows c (handle_header d v x n)
unfolding handle_header after_connect after_sync
handle_header-Follows d v x n c r =
    let one : Result Error Node = after_connect x.hex (connect_tip d n x.hex) in
    let more : Result Error Node = after_sync (sync_headers_onto_our_tip d v x.height n) in
    let is_next : Bool = eqb_ℤ x.height (n.headers.tip +ℤ pos 1) in
    let new : Result Error Node = if is_next then one else more in
    let is_known : Bool = leb_ℤ x.height n.headers.tip in
    let not_low : Result Error Node = if is_known then ok n else new in
    Follows-if c (ltb_ℤ x.height n.headers.start_point) (ok (record n { canceled = true })) not_low
      (c, stay, r)
      (Follows-if c is_known (ok n) new (c, stay, r)
        (Follows-if c is_next one more
          (after_connect-Follows n c x.hex (connect_tip d n x.hex) r
            (connect_tip-Connects d n c x.hex r))
          (after_sync-Follows c (sync_headers_onto_our_tip d v x.height n)
            (sync_headers_onto_our_tip-Updates d v x.height n c r))))

Follows-bind :
    (c : List Entry) (r : Result Error Node) (f : Node → Result Error Node)
    → Follows c r
    → ((m : Node) (b : List Entry) → Represents m.headers b → Follows b (f m))
    → Follows c (r >>= f)
Follows-bind c (ok m) f (b, moved, r) go = follow (f m) (go m b r)
  where
    follow : (q : Result Error Node) → Follows b q → Follows c q
    follow (ok k) (a, more, held) = (a, Moves-trans moved more, held)
    follow (err e) h = h
    follow panic h = tt
Follows-bind c (err e) f h go = h
Follows-bind c panic f h go = tt

pub header_queue-Follows :
    (qs : List Queued) (n : Node) (c : List Entry)
    → Represents n.headers c
    → Follows c (header_queue qs n)
unfolding header_queue
header_queue-Follows [] n c r = (c, stay, r)
header_queue-Follows (q ∷ qs) n c r = elim (Option-cases q.result) [
  | inl ends ↦ rw (ends, Follows) (c, stay, r)
  | inr (x, e) ↦
      rw (e, Follows)
        (Follows-bind c (handle_header q.disk q.server x n)
          (λ m. if m.canceled then ok m else header_queue qs m)
          (handle_header-Follows q.disk q.server x n c r)
          (λ m b held.
            Follows-if b m.canceled (ok m) (header_queue qs m) (b, stay, held)
              (header_queue-Follows qs m b held)))
]
