-- ===== src/Monitor/Replay.antt =====
-- A request that was accepted is not accepted again.
use sbackup.Base.{
  ℕ, zero, suc, ◌+◌, ◌-◌, ◌*◌, ◌≤◌, ◌<◌, String, Bool, true, false, not, ◌||◌, List, [], ◌∷◌, ◌++◌,
  some, ltb, ◌==◌, string_eq, ◌≡◌, refl, arith, eq_refl, length, drop, any, length-append,
  length-drop,
}
use sbackup.Base.Time.{minute}
use sbackup.Base.Maps.{lookup, put}
use sbackup.Monitor.{Server, Node}
use sbackup.Base.Maps.{lookup-put, lookup-filter}
use sbackup.Monitor.Report.{
  Request, Clock, rejected, accepted, nonce_key, is_replay, has_event, cap_reports, cleanup_nonces,
  commit,
}
use sbackup.Protocol.{Event}

any-append :
    {A : Type 0} (p : A → Bool) (xs ys : List A) → any p (xs ++ ys) ≡ (any p xs || any p ys)
any-append p [] ys = refl
any-append p (x ∷ xs) ys = let h = any-append p xs ys in ground arith

-- Dropping what stands before the last element leaves the last element.
any-drop_last :
    {A : Type 0} (p : A → Bool) (n : ℕ) (xs : List A) (y : A)
    → n ≤ length xs
    → p y ≡ true
    → any p (drop n (xs ++ y ∷ [])) ≡ true
any-drop_last p zero xs y h e = rw (any-append p xs (y ∷ [])) (ground arith)
any-drop_last p (suc n) [] y h e = ground arith
any-drop_last p (suc n) (x ∷ xs) y h e = any-drop_last p n xs y (omega arith) e

lookup-cleanup_nonces :
    (key : String) (nonces : List (String × ℕ)) (now expires : ℕ)
    → now ≤ expires
    → lookup key nonces ≡ some expires
    → lookup key (cleanup_nonces now nonces) ≡ some expires
unfolding cleanup_nonces
lookup-cleanup_nonces key nonces now expires c =
    lookup-filter (λ entry. not (ltb (entry.1) now)) key expires nonces (ground arith)

noted-is_replay :
    (key : String) (nonces : List (String × ℕ)) (cleaned expires now : ℕ)
    → cleaned ≤ expires
    → now < expires
    → is_replay key now (cleanup_nonces cleaned (put key expires nonces)) ≡ true
unfolding is_replay
noted-is_replay key nonces cleaned expires now c l =
    rw
      (
        lookup-cleanup_nonces key (put key expires nonces) cleaned expires c
            (lookup-put key expires nonces),
        is_replay,
      )
      (ground arith)

-- What an accepted commit leaves behind: the nonce, and the event.
commit-eq-accepted :
    (t : Clock) (r : Request) (n : Node) (e : Event) (fails : Bool) (s : Server) {s' : Server}
    → commit t r (n, e) fails s ≡ (accepted false, s')
    → (s'.nonces
        ≡ cleanup_nonces t.cleaned
            (put (nonce_key r.node r.nonce) (t.noted + 10 * minute) s.nonces))
      × (s'.reports ≡ cap_reports (s.reports ++ e ∷ []))
unfolding commit
commit-eq-accepted t r n e fails s h = ground arith

-- A second request with the node and the nonce of an accepted one is refused in the second part, whatever
-- the first part found for it, for ten minutes, if the clean-up of the first request read the clock within
-- these ten minutes.
pub commit_replay :
    (t : Clock) (r : Request) (n : Node) (e : Event) (fails : Bool) (s : Server) {s' : Server}
    → commit t r (n, e) fails s ≡ (accepted false, s')
    → t.cleaned ≤ t.noted + 10 * minute
    → (t' : Clock) (r' : Request) (found : Node × Event) (broken' : Bool) → r'.node ≡ r.node
    → r'.nonce ≡ r.nonce
    → t'.locked < t.noted + 10 * minute
    → commit t' r' found broken' s' ≡ (rejected 401 "replayed request", s')
unfolding commit
commit_replay t r n e fails s {s' = s'} h c t' r' (n', e') broken' en eo l =
    let (nonces, _) = commit-eq-accepted t r n e fails s h in
    rw (en, eo, nonces, noted-is_replay (nonce_key r.node r.nonce) s.nonces _ _ _ c l) refl

has_event-cap_reports :
    (reports : List Event) (e : Event) (id : String)
    → id ≡ e.event_id
    → has_event id (cap_reports (reports ++ e ∷ [])) ≡ true
unfolding has_event cap_reports
has_event-cap_reports reports e id h =
    any-drop_last (λ old. old.event_id == id) _ reports e
      (omega (arith, length-append reports (e ∷ []))) (rw h (eq_refl e.event_id))

-- An event with the id of one that was just accepted is answered as a duplicate under a nonce that is not a
-- replay, and changes nothing, whatever else its contents are.
pub commit_duplicate :
    (t : Clock) (r : Request) (n : Node) (e : Event) (fails : Bool) (s : Server) {s' : Server}
    → commit t r (n, e) fails s ≡ (accepted false, s')
    → (t' : Clock) (r' : Request) (found : Node × Event) (broken' : Bool)
    → found.1.event_id ≡ e.event_id
    → is_replay (nonce_key r'.node r'.nonce) t'.locked s'.nonces ≡ false
    → commit t' r' found broken' s' ≡ (accepted true, s')
unfolding commit
commit_duplicate t r n e fails s {s' = s'} h t' r' (n', e') broken' same fresh =
    let (_, reports) = commit-eq-accepted t r n e fails s h in
    rw (fresh, reports, has_event-cap_reports s.reports e e'.event_id same) refl

-- The state never keeps more than 10000 reports.
pub commit_bounded :
    (t : Clock) (r : Request) (found : Node × Event) (fails : Bool) (s : Server)
    → length s.reports ≤ 10000
    → length (commit t r found fails s).1.reports ≤ 10000
unfolding commit cap_reports
commit_bounded t r (n, e) fails s h =
    ground (arith, length-drop (length (s.reports ++ e ∷ []) - 10000) (s.reports ++ e ∷ []))
