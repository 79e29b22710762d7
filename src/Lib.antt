-- ===== src/Lib.antt =====
-- Traceline evaluates traces of agents. Events of an attempt (events.py) are matched and ordered by
-- trace rules (trace_rules.py), whose `where` texts are scalar predicates (predicates.py); runs, cases,
-- attempts and smoke checks go through tables of legal statuses (lifecycle.py); and the work is handed
-- out by a durable queue of jobs with leases and fences (jobs.py). A specification (spec.py) names cases
-- and metrics; evaluators.py scores a case's events by a metric, with a judge (judge.py) where the metric
-- asks for one, and rolls the scores up into an aggregate and its gate.
--
-- Where each part stands, with the paths from the repository's root:
--   Values        the Python values that evaluation handles, and Python's runtime as a parameter
--   Events        src/llm_agent_eval/events.py: EventType, Source, TraceEvent, `_tool_typed_column`
--   Predicate     src/llm_agent_eval/predicates.py. Tokens is `_tokenize` with `_scan_string` and
--                 `_scan_number`, Parser the class `_Parser`, Eval `_typed_eq`, `_order`, `_compare`,
--                 `_bool_and`, `_bool_or`, `_bool_not` and the `evaluate` of the nodes, Compile the
--                 class Predicate
--   TraceRules    src/llm_agent_eval/trace_rules.py. Order is `_fallback_key`, `_is_ancestor`,
--                 `_precedes`, `_follows`; Matching `_match`; Rules the operators, each `_eval_...` as
--                 `eval_...`, with `_eval_node` and `evaluate_rule`; Errors what they raise, the
--                 TypeError of a naive with an aware timestamp included
--   Lifecycle     src/llm_agent_eval/lifecycle.py: the statuses, their tables, `transition`, `_coerce`
--   Jobs          src/llm_agent_eval/jobs.py over migrations/0002_jobs_secrets.sql, and Actor.require
--                 of src/llm_agent_eval/auth.py. Table is the two tables and the statements, Queue and
--                 Lease the methods of JobQueue by their names, Calls the runs of many of them
--   Spec          src/llm_agent_eval/spec.py. Model is the objects, Rules `validate_trace_rule_body`,
--                 Checks the validators of the classes
--   Judge         src/llm_agent_eval/judge.py. Readiness is JudgeReadiness, Registry the class
--                 JudgeReadinessRegistry, Verdicts JudgeVerdict and the deterministic judges; Entries
--                 and Calls follow the registry through sequences of calls
--   Evaluators    src/llm_agent_eval/evaluators.py and retrieval.py. Attempts is `evaluate_case`,
--                 `score_attempt` and `score_output`, ByType the scoring by a metric's type, Custom
--                 `score_custom`, Observed
--                 `_score_observed_value`, Raw `_score_raw_value`, Schema `_json_ok`, Targets
--                 `_select_target_events`, Selectors `_select_from`, Condition the class `_Condition`,
--                 Aggregate `aggregate_metric`, `evaluate_gate` and `gate_safe`, Scores the results and
--                 the errors, Numbers the arithmetic on floats
--   Common        what the parts share: tests on numbers and texts, lists, results, integers
--
-- State is passed explicitly. An exception is an error result, and a method of the queue that raises
-- leaves the store as it was, as its transaction does. Loops are recursion on the list, on the text or on
-- fuel: the lexer runs on the length of its text, the two loops of the parser on the number of tokens
-- that are left, `nots` on the levels below _MAX_NESTING_DEPTH (100), `eval_node` on those below
-- _MAX_DEPTH (100), and the ancestor search on the bound that its own counter has, the number of event
-- ids. The validation of a rule runs on the depths below _MAX_RULE_DEPTH (100), the lexers of selectors
-- and of conditions on the length of their texts, the condition's parser on the number of its tokens, and
-- the JSON Schema check on the depth of its schema. A text that would use up the fuel of the lexer or the parser of predicates is excluded by the first result.
--
-- Parameters: floats, int(), float(), chr(), the classes of characters, datetime.fromisoformat and the
-- comparison in `_within_window` (record Python); celpy (record Cel); redaction, canonical JSON, the
-- keyed digest, the arithmetic on dates and the random identifiers of the queue (record World); the
-- arithmetic on floats (record Arithmetic), str(), the package re (Search), a judge (Judge), the run of a
-- custom artifact (Artifact), and the shipped thresholds of readiness (record Thresholds).
--
-- Not modelled: the cache of compiled predicates, which only saves time; surrogates, which are no
-- characters here; the IntegrityError of the outbox's primary key, whose random ids are taken to be new;
-- the row locks of PostgreSQL, since transactions run one after another here; pydantic's validation and serialisation
-- of events and specifications; the messages of results and errors; Python's recursion limit; the order
-- that `sorted` gives to a list with a NaN; and the other parts of the repository: storage, versions,
-- orchestration, HTTP, command line, redaction, the gateways of judges, runtimes, the web application.
pub mod Common
pub mod Values
pub mod Events
pub mod Predicate
pub mod TraceRules
pub mod Lifecycle
pub mod Jobs
pub mod Spec
pub mod Judge
pub mod Evaluators
