-- ===== src/Lib.antt =====
-- reward-mservice: a service in Go that keeps the reward budgets of projects. A finance doc, once
-- approved, gives a project one budget for each voucher type and unit; finance payments fill it;
-- issue requests take money from it once they are approved; and reward requests hand that money out
-- to users as vouchers. The services (server/service) check a request, read and write MySQL through
-- the data access objects (server/repository/dao), in transactions where money moves, and tell one
-- another through Kafka (server/kafka): the approval of an issue request leads to its issue budget,
-- an accepted reward request to its execution, an executed one to a result for its client.
--
-- The files:
--   Common (Tests, Lists, Int, Strings): what every file uses: tests on native numbers, lists,
--     integers, Go strings as code points.
--   Errs: server/errs/errcode.go and the error values of the other packages.
--   Amount: server/util/amount.go, decimal amounts as texts and as fractions, and (Laws) how they
--     round and compare; Sums and Limits are about a sum that is held against a limit.
--   Model, Model/Status: server/repository/model, one record for each table.
--   World: the state that the services share and the shape of a method. State is the tables, the
--     next id, the messages sent and the calls made; Action is a monad of state and errors with
--     statements, transactions and messages; Transactions says what a transaction does; Keeps,
--     Triple, Yields and Silent are rules for what a method keeps, ensures, returns and leaves alone.
--   Sql: UPDATE by a primary key, and (Laws, Rows) sums over a table before and after one.
--   Dao (ProjectBudgets, IssueBudgets, IssueRequests, Rewards, Finance, Templates, Projects):
--     server/repository/dao, one definition for each method.
--   Util: server/util/voucher_enum.go, template_enum.go and auth_context.go.
--   IssueRequest: server/service/issue_request.go. Input checks what a client sent, Service/Tx has
--     the bodies of the transactions, Service/Handlers the methods. In Proofs, Outcomes and Atomic
--     say what each transaction writes; Backing and Soundness relate withheld money to waiting
--     requests; Methods, Handlers, Update and Invariant carry that to every method. Life is the
--     life cycle of a request as a step relation, and Life/Proofs relates the statements to it.
--   Reward: server/service/issue_record_service.go (Input, Budgets, Service) and
--     server/proxy/voucher_issuer.go (Issuer). In Proofs, Outcomes is about the transactions,
--     Settlement about the end of a distribution, Silent and Acceptance about the acceptance of
--     a request, and Keeps, Methods and Soundness carry invariants to the methods. Accounts says
--     when the accounts of the issue budgets are in order; of its children, Rows is about the
--     rows, Moves and Settle about the transactions, Attempt and Methods about the
--     methods, and Frame about the methods of other services.
--   Finance: server/service/finance_payment.go (Payment), finance_doc.go with budget_helper.go
--     (Docs), and the creation of budgets of project_budget.go (Budgets). Proofs and Soundness are
--     about payments, DocProofs, Approved, InitSoundness and DocSoundness about docs and their
--     budgets, and Frame is about the tables that they leave alone.
--   Template: server/service/template.go. Config reads a configuration, Service has the methods,
--     Proofs and Pages are about them.
--   Project: server/service/project.go (Service), with Proofs.
--   Kafka: server/kafka. Producer has the producers of the events; Topic and Registry are
--     topic.go and handler.go; Listener has the handlers of server/kafka/listener, Consumer the loop over the fetches; Proofs and Commits are about them.
--   System: runs of the service, as a relation on worlds: a step is a call of a method that
--     writes. Soundness, Accounts, Life, Templates and Docs are about runs.
--   Tests (Templates, Kafka, Life, Rewards): the theorems at work on small tables.
--
-- How the code is read:
--   A method keeps the name of its Go method in snake case. It reads an Env and takes a World to a
--   result with a World. `if err != nil` is the bind of the monad; errs.Wrap is wrap; a nil
--   dereference is the error panic, which unwinds as other errors do.
--   Env holds what is not in the repository, as arbitrary functions: whether the n-th call of MySQL,
--   Kafka or a remote service fails, whether Kafka is enabled, what math/big's Rat.SetString reads
--   in a client's text, what MySQL stores for a text in a DECIMAL(20, 8) column, what encoding/json
--   reads, what uuid gives, the user of the request, and what the asset service answers. The risk
--   checker is there as well, since the service takes it as an interface. Without Kafka the producers
--   send nothing and return no error.
--   A transaction is one step: BEGIN, the body, COMMIT, each of which may fail, and the tables are
--   then the old ones. Row locks do nothing more in such a step. Calls are handled one
--   after the other; an interleaving of two methods between their statements is not described.
--   An UPDATE changes the first row that its WHERE meets, since every WHERE names a primary key.
--   The records of a fetch are handled in their order, and the handlers of a record one after the
--   other. AUTO_INCREMENT ids come from one counter for all tables, which a
--   rollback does not turn back.
--   A WHERE compares two texts as they are; the collation of the columns, by which letters match
--   without regard to their case, is left out, in lookups as in unique keys.
--   A stored amount is an integer in units of 10^-8, and so is the text with eight decimals that MySQL
--   or FloatString(8) prints for it: that Rat.SetString reads the number back from such a text is taken
--   for granted. The sums of an UPDATE are exact; the range
--   of the column is left out. An int64 id is its 64-bit pattern. A status column holds one of its
--   constants, and a JSON column the value that it encodes.
--   A loop of the source is recursion on its list; no definition needs fuel but the printing of a
--   number, which gets twenty digits, enough for 64 bits.
--
-- Not modelled: time stamps, texts of messages, logging and telemetry; the read-through caches of
-- projects and payment configs; the paged lists of finance docs and issue requests, whose filters
-- depend on the collation of the database; items, an example of the framework; the decoding of HTTP,
-- gRPC and Kafka messages; the polling of Kafka and the closing of the consumer; start-up, generated
-- code and the client package.
pub mod Common
pub mod Errs
pub mod Amount
pub mod Model
pub mod World
pub mod Sql
pub mod Dao
pub mod Util
pub mod IssueRequest
pub mod Reward
pub mod Finance
pub mod Template
pub mod Project
pub mod Kafka
pub mod System
mod Tests
