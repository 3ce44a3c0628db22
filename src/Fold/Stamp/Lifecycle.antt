-- ===== src/Fold/Stamp/Lifecycle.antt =====
-- The lifecycle of a node over the episodes that observe it: `_stamp` of pipeline/updater.py.
use mlpal_memory.Prelude.{
  ℕ, suc, ◌+◌, ◌<◌, ◌≡◌, Bool, false, ◌&&◌, Option, none, List, [], ◌∷◌, arith, all, length,
  if◌then◌else◌, ◌∙◌,
}
use mlpal_memory.Graph.{Node, Status}
use mlpal_memory.Fold.{Episode, is_working}
use mlpal_memory.Fold.Stamp.{is_nil, working_expiry, stamp_node, stamp_all}

-- A node as `upsert_node` makes it.
pub record IsNew (n : Node) : Type 0 where
  pub derived_from : n.derived_from ≡ []
  pub status : n.status ≡ Status.committed
  pub expires_at : n.expires_at ≡ none
  pub observed_count : n.observed_count ≡ 1

-- A node that was stamped: provenance is there, and it is working or committed.
record IsStamped (working : Bool) (expiry : Option ℕ) (count : ℕ) (n : Node) : Type 0 where
  derived_from : is_nil n.derived_from ≡ false
  status : n.status ≡ (if working then Status.working else Status.committed)
  expires_at : n.expires_at ≡ (if working then expiry else none)
  observed_count : n.observed_count ≡ count
  counted : 0 < count

stamp_first :
    (ttl : ℕ) (ep : Episode) (n : Node)
    → IsNew n
    → IsStamped (is_working ep) (working_expiry ttl ep) 1 (stamp_node ttl ep n)
unfolding stamp_node
stamp_first ttl ep n h = record {
  derived_from = ground arith;
  status = ground arith;
  expires_at = ground arith;
  observed_count = ground arith;
  counted = omega arith;
}

stamp_next :
    (ttl : ℕ) (ep : Episode) (n : Node) (working : Bool) (expiry : Option ℕ) (count : ℕ)
    → IsStamped working expiry count n
    → IsStamped (working && is_working ep) expiry (count + 1) (stamp_node ttl ep n)
unfolding stamp_node
stamp_next ttl ep n working expiry count h = record {
  derived_from = ground arith;
  status = ground arith;
  expires_at = ground arith;
  observed_count = ground arith;
  counted = omega arith;
}

stamp_rest :
    (ttl : ℕ) (eps : List Episode) (n : Node) (working : Bool) (expiry : Option ℕ) (count : ℕ)
    → IsStamped working expiry count n
    → IsStamped (working && all is_working eps) expiry (count + length eps) (stamp_all ttl n eps)
stamp_rest ttl [] n working expiry count h = record {
  derived_from = h.derived_from;
  status = ground arith;
  expires_at = ground arith;
  observed_count = ground arith;
  counted = omega arith;
}
stamp_rest ttl (ep ∷ eps) n working expiry count h =
    let rest =
      stamp_rest ttl eps (stamp_node ttl ep n) (working && is_working ep) expiry (count + 1)
        (stamp_next ttl ep n working expiry count h) in
    record {
      derived_from = rest.derived_from;
      status = rest.status ∙ ground arith;
      expires_at = rest.expires_at ∙ ground arith;
      observed_count = ground arith;
      counted = omega arith;
    }

-- A new node that episodes observe is working if and only if every episode that observes it is a working one, and committed for good otherwise; it expires when the first of them does and only while it is working, and it counts the episodes.
pub stamp_all-lifecycle :
    (ttl : ℕ) (ep : Episode) (eps : List Episode) (n : Node)
    → IsNew n
    → ((stamp_all ttl n (ep ∷ eps)).status
        ≡ (if all is_working (ep ∷ eps) then Status.working else Status.committed))
      × ((stamp_all ttl n (ep ∷ eps)).expires_at
          ≡ (if all is_working (ep ∷ eps) then working_expiry ttl ep else none))
      × ((stamp_all ttl n (ep ∷ eps)).observed_count ≡ suc (length eps))
stamp_all-lifecycle ttl ep eps n h =
    let last =
      stamp_rest ttl eps (stamp_node ttl ep n) (is_working ep) (working_expiry ttl ep) 1
        (stamp_first ttl ep n h) in
    (last.status, last.expires_at, ground arith)

expired_next :
    (ttl : ℕ) (ep : Episode) (n : Node)
    → is_nil n.derived_from ≡ false
    → n.status ≡ Status.expired
    → (is_nil (stamp_node ttl ep n).derived_from ≡ false)
      × ((stamp_node ttl ep n).status ≡ Status.expired)
unfolding stamp_node
expired_next ttl ep n observed expired = (ground arith, ground arith)

-- A memory that was observed and has expired stays expired, however often it is observed again.
pub stamp_all-expired :
    (ttl : ℕ) (eps : List Episode) (n : Node)
    → is_nil n.derived_from ≡ false
    → n.status ≡ Status.expired
    → (stamp_all ttl n eps).status ≡ Status.expired
stamp_all-expired ttl [] n observed expired = expired
stamp_all-expired ttl (ep ∷ eps) n observed expired =
    let (observed', expired') = expired_next ttl ep n observed expired in
    stamp_all-expired ttl eps (stamp_node ttl ep n) observed' expired'
