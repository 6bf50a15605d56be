-- ===== src/Server/Normal.antt =====
-- p2p/tcp_transport.go and server.go: NormalizeAddress, and a peer after onPeer.
use file_share_p2p.Prelude.{
  ℕ, ◌+◌, ◌⊎◌, true, Option, none, some, ◌++◌, ◌≡◌, refl, arith, inl, inr, Bool-cases, ltb, drop,
  ==_refl,
}
use file_share_p2p.Prelude.Maps.{get, get-put}
use file_share_p2p.GoString.{GoString, string_eq, bytes, has_prefix, last_index}
use file_share_p2p.Server.State.{Server, after_port, normalize_address, on_peer}

-- The address that NormalizeAddress makes is left as it is.
after_port-localhost :
    (rest : GoString) → normalize_address (bytes "localhost:" ++ rest) ≡ bytes "localhost:" ++ rest
unfolding normalize_address has_prefix
after_port-localhost rest = refl

normalize-after_port :
    (addr : GoString) (i : Option ℕ)
    → has_prefix addr (bytes "[::1]:") ≡ true
    → normalize_address (after_port addr i) ≡ after_port addr i ⊎ after_port addr i ≡ addr
unfolding after_port
normalize-after_port addr none h = inr refl
normalize-after_port addr (some i) h = elim (Bool-cases (ltb 0 i)) [
  | inl e ↦ inl (rw e (after_port-localhost (drop (i + 1) addr)))
  | inr e ↦ inr (rw e refl)
]

pub normalize_address_twice :
    (addr : GoString) → normalize_address (normalize_address addr) ≡ normalize_address addr
unfolding normalize_address
normalize_address_twice addr = elim (Bool-cases (has_prefix addr (bytes "[::1]:"))) [
  | inl e ↦ elim (normalize-after_port addr (last_index b':' addr) e) [
    | inl p ↦ rw e p
    | inr p ↦ rw (e, p, e) p
  ]
  | inr e ↦ rw (e, e) refl
]

pub get-on_peer :
    (remote : GoString) (s : Server)
    → get (normalize_address remote) (on_peer remote s).peers ≡ some remote
unfolding on_peer
get-on_peer remote s = ground (
  arith,
  get-put (normalize_address remote) remote s.peers (normalize_address remote),
  ==_refl (normalize_address remote),
)
