-- ===== src/Client/Address.antt =====
-- server.go: getPeerAddress, and what connectToAllPeers makes of its answer.
use file_share_p2p.Prelude.{
  ℕ, false, Option, none, some, [], ◌∷◌, ◌++◌, ◌≡◌, refl, ap, ◌∙◌, arith, ◌||◌, eqb, if◌then◌else◌,
}
use file_share_p2p.GoString.{GoString, split, split-append, has_byte, split_none}

-- The port of a listen address: what follows a colon at its front.
abbrev pub strip_colon : GoString → GoString
strip_colon [] = []
strip_colon (c ∷ rest) = if eqb c b':' then rest else c ∷ rest

abbrev pub address : GoString → GoString → GoString
address ip listen = ip ++ (b':' ∷ strip_colon listen)

-- getPeerAddress. GetPublicIP and GetLocalIP give an address or an error.
unfoldable pub get_peer_address : Option GoString → Option GoString → GoString → Option GoString
get_peer_address none local_ip listen = none
get_peer_address (some public_ip) none listen = none
get_peer_address (some public_ip) (some local_ip) listen =
    some (address public_ip listen ++ (b'|' ∷ address local_ip listen))

has_byte-append :
    (sep : ℕ) (s t : GoString) → has_byte sep (s ++ t) ≡ (has_byte sep s || has_byte sep t)
unfolding has_byte
has_byte-append sep [] t = refl
has_byte-append sep (c ∷ s) t = ground (arith, has_byte-append sep s t)

pub address_plain :
    (ip listen : GoString)
    → has_byte b'|' ip ≡ false
    → has_byte b'|' listen ≡ false
    → has_byte b'|' (address ip listen) ≡ false
unfolding has_byte
address_plain ip [] a b = ground (arith, a, has_byte-append b'|' ip (b':' ∷ []))
address_plain ip (c ∷ rest) a b =
    ground (arith, a, b, has_byte-append b'|' ip (b':' ∷ strip_colon (c ∷ rest)))

-- Where neither the two addresses nor the listen address has a bar, the address that is announced
-- exists and splits at the bar into the public address with the port and the local one with it.
pub split-get_peer_address :
    (public_ip local_ip listen : GoString)
    → has_byte b'|' public_ip ≡ false
    → has_byte b'|' local_ip ≡ false
    → has_byte b'|' listen ≡ false
    → (addr : GoString) × (get_peer_address (some public_ip) (some local_ip) listen ≡ some addr)
      × (split b'|' addr ≡ address public_ip listen ∷ address local_ip listen ∷ [])
unfolding get_peer_address
split-get_peer_address public_ip local_ip listen p l n = (
  address public_ip listen ++ (b'|' ∷ address local_ip listen),
  refl,
  split-append b'|' (address public_ip listen) (address local_ip listen)
        (address_plain public_ip listen p n)
      ∙ ap (◌∷◌ (address public_ip listen))
          (split_none b'|' (address local_ip listen) (address_plain local_ip listen l n)),
)
