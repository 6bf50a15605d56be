-- ===== src/Client/Machine.antt =====
-- shared/functions.go: the addresses of the machine.
-- What the system and the web service answer is an argument.
use file_share_p2p.Prelude.{
  Bool, true, not, ◌&&◌, Option, none, some, List, [], ◌∷◌, ◌++◌, ◌≡◌, arith, if◌then◌else◌,
  Bool-cases, inl, inr,
}
use file_share_p2p.GoString.{GoString, bytes}
use file_share_p2p.Client.Announce.{Addresses}

-- An address of an interface: whether it is an IP network, whether its IP is a loopback address and
-- has four bytes, and the text of the IP.
pub record InterfaceAddress : Type 0 where
  pub is_ip_net : Bool
  pub is_loopback : Bool
  pub is_v4 : Bool
  pub text : GoString

abbrev pub is_usable : InterfaceAddress → Bool
is_usable a = a.is_ip_net && not a.is_loopback && a.is_v4

unfoldable pub first_usable : List InterfaceAddress → Option GoString
first_usable [] = none
first_usable (a ∷ addresses) =
    let rest = first_usable addresses in if is_usable a then some a.text else rest

-- GetLocalIP; `none` is an error, of net.InterfaceAddrs or that there is no address.
unfoldable pub get_local_ip : Option (List InterfaceAddress) → Option GoString
get_local_ip none = none
get_local_ip (some addresses) = first_usable addresses

-- GetPublicIP: the body of the answer, whatever its status; `none` is an error of http.Get or of the
-- reading of the body.
unfoldable pub get_public_ip : Option (Option GoString) → Option GoString
get_public_ip none = none
get_public_ip (some body) = body

-- What getPeerAddress asks for.
unfoldable pub addresses_of : Option (Option GoString) → Option (List InterfaceAddress) → Addresses
addresses_of answer interfaces = record {
  public_ip = get_public_ip answer;
  local_ip = get_local_ip interfaces;
}

-- FullPath, which nothing calls; `join` stands for filepath.Join.
unfoldable pub full_path : (GoString → GoString → GoString) → GoString → GoString → GoString
full_path join base file_id = join base (file_id ++ bytes "_metadata.json")

-- The local address is the first one that is usable.
pub get_local_ip-append :
    (before : List InterfaceAddress) (a : InterfaceAddress) (after : List InterfaceAddress)
    → first_usable before ≡ none
    → is_usable a ≡ true
    → get_local_ip (some (before ++ (a ∷ after))) ≡ some a.text
unfolding get_local_ip first_usable
get_local_ip-append [] a after h u = ground (arith, u)
get_local_ip-append (b ∷ before) a after h u = elim (Bool-cases (is_usable b)) [
  | inl e ↦ absurd (ground (arith, e, h))
  | inr e ↦ ground (arith, e, h, get_local_ip-append before a after (ground (arith, e, h)) u)
]
