-- ===== src/Tracker/Upnp.antt =====
-- p2p/tracker.go: setupUPnP, which nothing calls.
-- What the UPnP library returns is an argument: the clients that it finds with a list of errors, and for
-- each client the external address and whether it adds a mapping.
use file_share_p2p.Prelude.{
  ℕ, suc, ◌-◌, ◌%◌, ◌^◌, Bool, true, Option, none, some, List, [], ◌∷◌, get_elem?, if◌then◌else◌,
}
use file_share_p2p.Prelude.Int.{ℤ, pos, negsuc}
use file_share_p2p.GoString.{GoString, bytes}

-- The arguments of AddPortMapping.
pub record Mapping : Type 0 where
  pub remote_host : GoString
  pub external_port : ℕ
  pub protocol : GoString
  pub internal_port : ℕ
  pub internal_client : GoString
  pub enabled : Bool
  pub description : GoString
  pub lease_duration : ℕ

pub record UpnpClient : Type 0 where
  pub external_ip : Option GoString
  pub adds : Mapping → Bool

-- The result: a mapping, one of the two errors, or a panic.
pub data UpnpResult : Type 0 where
  mapped : Mapping → UpnpResult
  not_discovered not_mapped index_out_of_range : UpnpResult

-- `uint16(port)`
abbrev pub uint16 : ℤ → ℕ
uint16 (pos n) = n % 2 ^ 16
uint16 (negsuc n) = 2 ^ 16 - 1 - n % 2 ^ 16

abbrev pub mapping_of : ℤ → GoString → Mapping
mapping_of port ip = record {
  remote_host = bytes "";
  external_port = uint16 port;
  protocol = bytes "TCP";
  internal_port = uint16 port;
  internal_client = ip;
  enabled = true;
  description = bytes "ForeverStore P2P";
  lease_duration = 3600;
}

-- One client whose entry in `errors` is nil; `rest` is the loop after it.
unfoldable pub try_client : ℤ → Option GoString → (Mapping → Bool) → UpnpResult → UpnpResult
try_client port none adds rest = rest
try_client port (some ip) adds rest =
    if adds (mapping_of port ip) then mapped (mapping_of port ip) else rest

-- `errors[i]`: out of range, an error, or nil.
unfoldable pub after_error : ℤ → UpnpClient → Option (Option GoString) → UpnpResult → UpnpResult
after_error port client none rest = index_out_of_range
after_error port client (some (some e)) rest = rest
after_error port client (some none) rest = try_client port client.external_ip client.adds rest

-- The loop over the clients from the i-th on.
unfoldable pub try_clients : ℤ → List (Option GoString) → ℕ → List UpnpClient → UpnpResult
try_clients port errors i [] = not_mapped
try_clients port errors i (client ∷ clients) =
    let rest = try_clients port errors (suc i) clients in
    after_error port client (get_elem? errors i) rest

-- setupUPnP
unfoldable pub setup_upnp : ℤ → Option (List UpnpClient × List (Option GoString)) → UpnpResult
setup_upnp port none = not_discovered
setup_upnp port (some (clients, errors)) = try_clients port errors 0 clients
