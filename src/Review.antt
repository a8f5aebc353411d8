-- ===== src/Review.antt =====
-- modules/review/review.go: the review queue and the decisions on it.
pub mod Reasons
use appstore_gerege_nexus.Prelude.{
  String, Bool, true, false, not, ◌&&◌, ◌||◌, List, [], ◌∷◌, ◌++◌, Option, none, some, ◌==◌,
  if◌then◌else◌,
}
use Prim.Native.String
use appstore_gerege_nexus.Text.{trim_space}
use appstore_gerege_nexus.Tables.{Time, Publisher, ReviewEvent}
use appstore_gerege_nexus.Contract.{Contract}
use appstore_gerege_nexus.World.{
  Error, not_found, conflict, invalid_submission, failure, Audit, Caller, Claims, Reply, json,
  problem, Handler, respond, audit, attempt, require_tenant, require_user,
}
use appstore_gerege_nexus.Registry.Publishers.{list_publishers, set_publisher_verified}
use appstore_gerege_nexus.Registry.Versions.{Version, list_review_queue}
use appstore_gerege_nexus.Registry.Decisions.{decide_version, review_history}

pub record DecisionBody : Type 0 where
  pub action : String
  pub note : String

abbrev pub known_action : String → Bool
known_action action = action == "publish" || action == "reject" || action == "yank"

abbrev pub decision_failed : {A : Type 0} → Error → Reply A
decision_failed not_found = problem 404 "no such version"
decision_failed _ = problem 500 "could not record the decision"

abbrev pub verify_failed : {A : Type 0} → Error → Reply A
verify_failed not_found = problem 404 "no such publisher"
verify_failed _ = problem 500 "could not record the decision"

-- handleHistory
unfoldable pub handle_history : String → Handler (List ReviewEvent)
unfolding attempt review_history
handle_history id =
    attempt (review_history id) (λ e. respond (problem 500 "could not load the review history"))
      λ history. respond (json 200 history)

-- handlePublishers
unfoldable pub handle_publishers : Handler (List Publisher)
unfolding attempt list_publishers
handle_publishers =
    attempt list_publishers (λ e. respond (problem 500 "could not load publishers"))
      λ publishers. respond (json 200 publishers)

-- handleVerifyPublisher; `verified` is the query parameter, where all but "false" verifies.
unfoldable pub handle_verify_publisher :
    Caller → (id verified : String) → (now : Time) → Handler Bool
unfolding attempt set_publisher_verified
handle_verify_publisher caller id verified now = require_tenant caller λ tenant_id.
    require_user caller λ claims.
      let on = not (verified == "false") in
      attempt (set_publisher_verified id on claims.user_id now) (λ e. respond (verify_failed e))
        λ _.
          audit
            (record {
              tenant_id = tenant_id;
              actor = claims.user_id;
              action = "review.publisher_verified";
              resource = "publisher";
              details = ("publisher_id", id) ∷ ("verified", if on then "true" else "false") ∷ [];
            })
            (respond (json 200 on))

module _ (k : Contract) where
  -- handleQueue
  unfoldable pub handle_queue : Handler (List Version)
  unfolding attempt list_review_queue
  handle_queue =
      attempt (list_review_queue k) (λ e. respond (problem 500 "could not load the review queue"))
        λ pending. respond (json 200 pending)

  -- The part of handleDecision behind its checks.
  abbrev pub record_decision : String → Claims → String → DecisionBody → Time → Handler String
  record_decision tenant_id claims id body now =
      attempt
        (decide_version k id body.action claims.user_id claims.email (trim_space body.note) now)
        (λ e. respond (decision_failed e))
        λ _.
          audit
            (record {
              tenant_id = tenant_id;
              actor = claims.user_id;
              action = String.◌++◌ "review." body.action;
              resource = "store_app_version";
              details = ("version_id", id) ∷ ("note", body.note) ∷ [];
            })
            (respond (json 200 body.action))

  abbrev pub checked_decision :
      String → Claims → String → Option DecisionBody → Time → Handler String
  checked_decision tenant_id claims id none now = respond (problem 400 "malformed request body")
  checked_decision tenant_id claims id (some body) now =
      if not (known_action body.action)
      then respond (problem 400 "action must be \"publish\", \"reject\" or \"yank\"")
      else if not (body.action == "publish") && trim_space body.note == ""
      then respond (
          problem 400
            "say why: a rejected or withdrawn version needs a reason its publisher can act on")
      else record_decision tenant_id claims id body now

  -- handleDecision
  unfoldable pub handle_decision :
      Caller → (id : String) → Option DecisionBody → (now : Time) → Handler String
  unfolding attempt decide_version
  handle_decision caller id body now =
      require_tenant caller
        λ tenant_id. require_user caller λ claims. checked_decision tenant_id claims id body now
