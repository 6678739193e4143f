-- ===== src/Lib.antt =====
-- Aegis: a payment-risk pipeline. A payment is described by point-in-time features, scored by a
-- model, placed in a temporal graph of customers, instruments, devices, IPs and addresses, and
-- decided by a policy that combines the model score with the graph's structural evidence.
--
-- Parts of the program and the files that model them:
--   Common          lists, sorted sets, sorting, dictionaries, errors as values, text order and the
--                   float interface. A float is an element of an abstract type with the operations
--                   the code uses (Common/Float.antt); Compares and Rounds name the documented
--                   IEEE 754 facts that some theorems need, and Common/Float/Millionths.antt is a
--                   concrete instance in which every law is proved, as is Common/Float/Extended.antt,
--                   which has an infinity and a NaN.
--   Enums           apps/api/app/core/enums.py
--   Graph/Registry  packages/graph_engine/registry.py: the metric table and the signal codes.
--   Graph/Domain    packages/graph_engine/domain.py: entities, transactions, signals.
--   Graph/State     packages/graph_engine/state.py: `observe` and the constructor are observe and
--                   graph_of; State/Components has the breadth-first `component` and what is built
--                   on it. State/Edges, Nodes and Counts are about what the state remembers,
--                   State/Reach, Partition and Split about the search.
--   Graph/Engine    packages/graph_engine/engine.py: measure gathers the local variables of
--                   `GraphEngine.assess`, Engine/Signals turns them into metrics, signals and the
--                   candidate flag, Engine/Assess is the whole method with its guard. Laws, Past and
--                   Guard are about the assessment, its source times and what it can raise.
--   Features/Registry, Domain, Engine
--                   packages/risk_engine/features/{registry,domain,engine}.py: the feature table, the
--                   transactions, and `FeatureEngine.compute` over what a history provider returns;
--                   Engine/Windows is about what its velocity features count.
--   Features/History, Validation, Offline
--                   packages/risk_engine/features/{history,validation,offline}.py: the indexes of
--                   `InMemoryHistoryProvider` with the binary search of `bisect_left`
--                   (Common/Ascending/Bisect), the checks on a vector, and the replay that scores
--                   the transactions of one time before it observes them.
--   Policy/Config, Domain, Rules, Engine, Costs, Backtest, Optimizer
--                   packages/policy_engine/{config,domain,rules,engine,costs,validation,backtest,
--                   optimizer}.py: a policy decides one input (Engine), a profile prices a decision
--                   (Costs), the backtest runs both over labelled examples (Backtest), and the
--                   optimizer runs the backtest for every pair of thresholds (Optimizer).
--
--   Ingestion       apps/api/app/services/transactions.py and the rows of apps/api/app/models:
--                   Session is the database session, a parameter with the laws that SQLAlchemy
--                   documents; Upserts, Edges and Rows are the statements, Ingest has
--                   `ingest_transaction` with its error paths. Triples and Runs are rules for steps
--                   that may raise and for steps that do not; Holding, Store, Marking, Normalized
--                   and Ends follow the first to every way an ingestion can end, Total, Returns and
--                   Liveness the second to its return.
--   Training        ml/training/splitting.py: Splitting is the division between two boundaries and
--                   `validate_split`; Members says what its sets and times tell of the items, Sound
--                   and Parts what an accepted split and a divided history are.
--
-- How the parts interact: the feature engine reads what a history provider returns, and the offline
-- build alternates between the two; the policy validator reads the versions and signal codes of both
-- registries; the signals of a graph assessment are the graph evidence of a policy input.
--
-- Conventions. A pydantic model is a record and its validators are one function into Result, in the
-- order in which pydantic reports: field ranges first, then the validator's own checks. An exception
-- is `raise` of an Error; NoFeasiblePolicyError, which carries diagnostics, is a constructor of the
-- optimizer's own result type. A dict is an association list in insertion order. A set whose walking
-- order does not matter is the sorted list of its members. A Python int is a natural number where
-- the code only adds and counts; a difference that can be negative is an integer (Common/Int.antt).
-- A datetime is a number of microseconds.
--
-- Fuel. The breadth-first search of Graph/State/Components runs on as many rounds as the graph has
-- entities: each round takes one entity from the queue, and an entity enters the queue only when it
-- is new. Graph/State/Reach counts the queued and the unseen entities and shows that these rounds
-- are enough. The split into components is bounded by the same number, since each round removes at
-- least its starting entity (Graph/State/Split). All other loops are structural.
--
-- Parameters: the stable hashes of configurations and the fingerprint hash (JSON, SHA-256), the
-- clock, the history provider of the feature engine, log1p, fmean, pstdev, the hour and weekday of a
-- time, np.quantile, `str.lower`, the database session and its failures, generated identifiers,
-- Python's compensated sum of floats, the decimal text of a count and the text of a set.
-- Not modelled: the database adapters of features and graph, HTTP routes, YAML loading, the LightGBM
-- model, the cluster lifecycle, the investigator, the synthetic generator, the training scripts and
-- the choice of their boundaries, and the web dashboard; of ingestion, what other sessions do between
-- the statements of one.
pub mod Common
pub mod Enums
pub mod Graph
pub mod Features
pub mod Policy
pub mod Ingestion
pub mod Training
