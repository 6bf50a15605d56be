-- ===== src/Tracker/Directory.antt =====
-- An abstract view of the tracker: who offers what, and when each peer was last seen. It knows nothing
-- of maps, of their order, of counts or of the records of files.
use file_share_p2p.Prelude.{
  ◌*◌, ℕ, Bool, false, not, ◌&&◌, ◌||◌, Option, none, some, List, ◌≡◌, if◌then◌else◌, ◌==◌,
  contains,
}
use file_share_p2p.GoString.{GoString, string_eq, bytes}
use file_share_p2p.Tracker.State.{Tracker, Request}
use file_share_p2p.Tracker.Handlers.{method_post}
use file_share_p2p.Tracker.Cleanup.{second, is_stale}
use file_share_p2p.Tracker.Membership.{has}
use file_share_p2p.Tracker.Freshness.{seen}
use file_share_p2p.Tracker.Reach.{
  Step, announces, beats, removes, asks, cleans, disconnects, touches, Reach, start, next,
}

pub record Directory : Type 0 where
  pub offers : GoString → GoString → Bool
  pub last : GoString → Option ℕ

abbrev pub empty : Directory
empty = record { offers = λ file peer. false; last = λ peer. none }

-- What can happen to a directory.
pub data Act : Type 0 where
  offer : (file peer : GoString) (now : ℕ) → Act
  offer_exactly : (peer : GoString) (files : List GoString) (now : ℕ) → Act
  withdraw : (file peer : GoString) → Act
  expire : (threshold now : ℕ) → Act
  forget : GoString → Act
  note : (peer : GoString) (now : ℕ) → Act
  nothing : Act

abbrev pub noted : GoString → ℕ → (GoString → Option ℕ) → GoString → Option ℕ
noted peer now last q = if q == peer then some now else last q

unfoldable pub apply : Act → Directory → Directory
apply (offer file peer now) d = record {
  offers = λ f q. (f == file && q == peer) || d.offers f q;
  last = noted peer now d.last;
}
apply (offer_exactly peer files now) d = record {
  offers = λ f q. if q == peer then contains f files else d.offers f q;
  last = noted peer now d.last;
}
apply (withdraw file peer) d = record d {
  offers = λ f q. not (f == file && q == peer) && d.offers f q;
}
apply (expire threshold now) d = record {
  offers = λ f q. not (is_stale threshold now (d.last q)) && d.offers f q;
  last = λ q. if is_stale threshold now (d.last q) then none else d.last q;
}
apply (forget peer) d = record {
  offers = λ f q. not (q == peer) && d.offers f q;
  last = λ q. if q == peer then none else d.last q;
}
apply (note peer now) d = record d { last = noted peer now d.last }
apply nothing d = d

-- A POST request acts if its method is right and its body is decoded.
unfoldable pub act_of_post : {A : Type 0} → Request A → (A → Act) → Act
act_of_post r act =
    if r.method == method_post then elim r.body [ none ↦ nothing | some a ↦ act a ] else nothing

unfoldable pub act_of : {t u : Tracker} → Step t u → Act
act_of (announces uploaded now r) = act_of_post r (λ a. offer a.file_id a.peer_addr now)
act_of (beats order now r cover) = act_of_post r (λ b. offer_exactly b.peer_addr b.file_ids now)
act_of (removes r) = act_of_post r (λ q. withdraw q.file_id q.peer_addr)
act_of (asks o now file files peers) =
    if file == bytes "" then nothing else expire (120 * second) now
act_of (cleans o threshold now files peers) = expire threshold now
act_of (disconnects order addr cover) = forget addr
act_of (touches now addr) = note addr now

-- The directory after all that has happened to the tracker.
unfoldable pub directory : {t : Tracker} → Reach t → Directory
directory start = empty
directory (next r s) = apply (act_of s) (directory r)

pub record Shows (t : Tracker) (d : Directory) : Type 0 where
  pub offers : (file q : GoString) → has t file q ≡ d.offers file q
  pub last : (q : GoString) → seen t q ≡ d.last q
