-- ===== src/Servers/Remove.antt =====
-- removeServer and loadKnownServers of electrumx/network_servers.go.
use go_electrum_client.Prelude.{
  ◌≡◌, ◌≢◌, ◌↔◌, ◌⊎◌, refl, sym, subst, inl, inr, true, false, ℕ, Option, List, arith, Bool-cases,
  length,
}
use go_electrum_client.Prelude.Results.{Result, ok, err, panic, Result-cases}
use go_electrum_client.Servers.{
  Text, ServerAddr, AddrFile, holds, no_bytes, garbled, not_opened, not_truncated, bad_offset,
  not_written, FileCalls, FileError, Known, read_server_addr_file, write_server_addr_file,
  encode_servers, without_address, remove_server, present,
}
use go_electrum_client.Servers.Addresses.{HasAddress, HasAddress-without_address}
use go_electrum_client.Servers.Update.{
  read-write_server_addr_file, read_server_addr_file_count, HasNull, all_present_cases,
}

-- The addresses of the first list without `b`.
abbrev pub Without : Text → List ServerAddr → List ServerAddr → Type 0
Without b l less = (a : Text) → HasAddress a less ↔ (HasAddress a l × (a ≢ b))

-- What a removal does, by its outcome.
abbrev pub Removes : FileCalls → Text → Known → Known × Result FileError (Unit {0}) → Type 0
Removes c b k (j, ok _) =
    Without b k.servers j.servers
    × (stored : List ServerAddr) × (less : List ServerAddr) × (read_server_addr_file c k.file
        ≡ ok (present stored, length (present stored)))
    × (read_server_addr_file c j.file ≡ ok (present less, length (present less)))
    × Without b stored less
Removes c b k (j, err e) =
    Without b k.servers j.servers × ((j.file ≡ k.file) ⊎ (j.file ≡ no_bytes) ⊎ (j.file ≡ garbled))
Removes c b k (j, panic) =
    Without b k.servers j.servers
    × (j.file ≡ k.file)
    × (raw : List (Option ServerAddr)) × (read_server_addr_file c k.file ≡ ok (raw, length raw))
    × HasNull raw

write_server_addr_file_cases :
    (c : FileCalls) (f : AddrFile) (l : List (Option ServerAddr))
    → (write_server_addr_file c f l ≡ (encode_servers l, ok tt))
      ⊎ ((g : AddrFile) × (x : FileError) × (write_server_addr_file c f l ≡ (g, err x))
          × ((g ≡ f) ⊎ (g ≡ no_bytes) ⊎ (g ≡ garbled)))
unfolding write_server_addr_file
write_server_addr_file_cases c f l = elim (Bool-cases c.can_open) [
  | inr closed ↦ inr (f, not_opened, ground arith, inl refl)
  | inl opened ↦ elim (Bool-cases c.can_truncate) [
    | inr kept ↦ inr (f, not_truncated, ground arith, inl refl)
    | inl cut ↦ elim (Bool-cases c.can_seek) [
      | inr lost ↦ inr (no_bytes, bad_offset, ground arith, inr (inl refl))
      | inl found ↦ elim (Bool-cases c.can_write) [
        | inr failed ↦ inr (garbled, not_written, ground arith, inr (inr refl))
        | inl written ↦ inl (ground arith)
      ]
    ]
  ]
]

read_server_addr_file-ne-panic : (c : FileCalls) (f : AddrFile) → read_server_addr_file c f ≢ panic
unfolding read_server_addr_file
read_server_addr_file-ne-panic c no_bytes e = ground arith
read_server_addr_file-ne-panic c (holds l) e = ground arith
read_server_addr_file-ne-panic c garbled e = ground arith

-- A removal from a file that could be read.
remove_server-Removes_read :
    (c : FileCalls) (s : ServerAddr) (k : Known) (raw : List (Option ServerAddr)) (n : ℕ)
    → read_server_addr_file c k.file ≡ ok (raw, n)
    → Removes c s.address k (remove_server false c s k)
unfolding remove_server
remove_server-Removes_read c s k raw n q =
    let in_memory : Without s.address k.servers (without_address s.address k.servers) =
      λ a. HasAddress-without_address a s.address k.servers in
    let left : List ServerAddr = without_address s.address k.servers in
    let (read, counted, can) = read_server_addr_file_count c k.file raw n q in
    elim (all_present_cases raw) [
      | inr (gone, null) ↦
          let step : remove_server false c s k ≡ (record { servers = left; file = k.file }, panic) =
            rw (q, remove_server, gone) refl in
          subst (Removes c s.address k) (sym step) (in_memory, refl, raw, read, null)
      | inl (stored, whole, same) ↦
          let less : List ServerAddr = without_address s.address stored in
          elim (write_server_addr_file_cases c k.file (present less)) [
            | inl w ↦
                let step : remove_server false c s k
                    ≡ (record { servers = left; file = encode_servers (present less) }, ok tt) =
                  rw (q, remove_server, whole, w) refl in
                subst (Removes c s.address k) (sym step) (
                  in_memory,
                  stored,
                  less,
                  subst (λ r. read_server_addr_file c k.file ≡ ok (r, length r)) same read,
                  read-write_server_addr_file c k.file (encode_servers (present less))
                      (present less) can w,
                  λ a. HasAddress-without_address a s.address stored,
                )
            | inr (g, x, w, file) ↦
                let step : remove_server false c s k
                    ≡ (record { servers = left; file = g }, err x) =
                  rw (q, remove_server, whole, w) refl in
                subst (Removes c s.address k) (sym step) (in_memory, file)
          ]
    ]

-- With the flag off, removing a server takes its address, and no other, out of memory in every
-- case; if it ends well the file, as it is read, has lost that address and no other; if it fails
-- the file is unchanged, empty or garbled. It panics only where the list in the file holds a null,
-- and the file is then unchanged.
pub remove_server-Removes :
    (c : FileCalls) (s : ServerAddr) (k : Known) → Removes c s.address k (remove_server false c s k)
unfolding remove_server
remove_server-Removes c s k =
    let in_memory : Without s.address k.servers (without_address s.address k.servers) =
      λ a. HasAddress-without_address a s.address k.servers in
    let left : List ServerAddr = without_address s.address k.servers in
    elim (Result-cases (read_server_addr_file c k.file)) [
      | inl ((raw, n), q) ↦ remove_server-Removes_read c s k raw n q
      | inr (inl (x, bad)) ↦
          let step : remove_server false c s k ≡ (record { servers = left; file = k.file }, err x) =
            rw (bad, remove_server) refl in
          subst (Removes c s.address k) (sym step) (in_memory, inl refl)
      | inr (inr bad) ↦ absurd (read_server_addr_file-ne-panic c k.file bad)
    ]

-- With the flag NoDeleteKnownPeers nothing changes, whatever the disk does.
remove_server_flagged :
    (c : FileCalls) (s : ServerAddr) (k : Known) → remove_server true c s k ≡ (k, ok tt)
unfolding remove_server
remove_server_flagged c s k = refl
