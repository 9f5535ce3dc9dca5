-- ===== src/Tests/Life.antt =====
-- The life of issue requests and finance docs, and the list of the projects, at work.
use reward_mservice.Common.{Option, codes, eq_text, some, find, pos, ◌≡◌, refl}
use reward_mservice.World.{World}
use reward_mservice.System.{Reaches, here, later, after, on_update_doc, on_doc_status}
use reward_mservice.System.Docs.{reaches-IsApproved}
use reward_mservice.Finance.Docs.{UpdateFinanceDocRequest, UpdateFinanceDocContentRequest}
use reward_mservice.Model.{IssueRequest, RequestStatus}
use reward_mservice.World.Triple.{Post}
use reward_mservice.Dao
use reward_mservice.IssueRequest.Life.{Lives}
use reward_mservice.System.Life.{reaches-Lives, reaches-ongoing}
use reward_mservice.Project.Service.{list_projects_with_ongoing_issue_request}
use reward_mservice.Project.Proofs.{Anything, HaveOngoing, list_projects-HaveOngoing}
use reward_mservice.Tests.{doc, world, env, last, run, request_of}

third_found :
    find (Dao.IssueRequests.has_id 3) world.tables.issue_requests
    ≡ some (request_of 3 (pos 100000000) RequestStatus.draft)
unfolding find
third_found = refl

fourth_found :
    find (Dao.IssueRequests.has_id 4) world.tables.issue_requests
    ≡ some (request_of 4 (pos 200000000) RequestStatus.ongoing)
unfolding find
fourth_found = refl

reaches-Lives_example :
    (now : IssueRequest) × (find (Dao.IssueRequests.has_id 3) last.tables.issue_requests ≡ some now)
    × Lives (request_of 3 (pos 100000000) RequestStatus.draft) now
reaches-Lives_example =
    reaches-Lives world last 3 (request_of 3 (pos 100000000) RequestStatus.draft) run third_found

reaches-ongoing_example :
    find (Dao.IssueRequests.has_id 4) last.tables.issue_requests
    ≡ some (request_of 4 (pos 200000000) RequestStatus.ongoing)
reaches-ongoing_example =
    reaches-ongoing world last 4 (request_of 4 (pos 200000000) RequestStatus.ongoing) run
      fourth_found refl

list_projects-HaveOngoing_example :
    Post HaveOngoing Anything (list_projects_with_ongoing_issue_request env world)
list_projects-HaveOngoing_example = list_projects-HaveOngoing env world

-- An approved doc is to be rejected, and its content changed.
abbrev rejection : Option UpdateFinanceDocRequest
rejection = some (record { status = codes "REJECTED"; remark = codes "" })

abbrev content : Option UpdateFinanceDocContentRequest
content = some (record { description = codes "more"; application_detail = doc.application_detail })

abbrev after_docs : World
after_docs =
    after (on_update_doc (codes "d") content) env
      (after (on_doc_status (codes "d") rejection) env world)

abbrev docs_run : Reaches world after_docs
docs_run =
    later (on_update_doc (codes "d") content) env
      (later (on_doc_status (codes "d") rejection) env here)

doc_found : find (Dao.Finance.has_doc_id doc.doc_id) world.tables.finance_docs ≡ some doc
unfolding find eq_text
doc_found = refl

reaches-IsApproved_example :
    find (Dao.Finance.has_doc_id doc.doc_id) after_docs.tables.finance_docs ≡ some doc
reaches-IsApproved_example = reaches-IsApproved world after_docs doc docs_run refl doc_found
