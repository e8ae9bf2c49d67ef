-- ===== src/Lib.antt =====
-- TruePresence: a verification library for the presence engine under truepresence/.
--
-- The program scores whether a session is driven by a human. A client sends a packet of derived
-- features (truepresence/sdk/features.py, contracts.py); the privacy guard refuses a payload with
-- raw content (truepresence/sdk/privacy.py); the detectors turn features into signals
-- (truepresence/detectors/); the scoring turns signals into a response with likelihoods, a
-- confidence and a recommended action (truepresence/scoring/). Beside it the decision engine builds
-- a packet of evidence from an event (truepresence/evidence/) and turns it, with the reports of its
-- roles (truepresence/core/roles/), into a decision (truepresence/decision/), and the safety
-- policy escalates suspicious distribution of media on Telegram (truepresence/safety/). The engine's
-- ensemble remembers the events of a session in a timeline and
-- connects similar sessions in an identity graph (truepresence/memory/), and a
-- suspicious session is asked a question (truepresence/challenges/).
--
-- Files and code
--   Base       helpers: Boolean tests, lists, text as code points, `sorted(set(...))`
--   Json       a decoded JSON payload: `dict` and `list` with the scalars; Dict: `dict` as a state
--   Privacy    truepresence/sdk/privacy.py. Sets: the field sets. Keys: `_normalize_key`,
--              `_is_raw_content_key`, `_is_sensitive_field_descriptor`. Scan: the `_scan_*`
--              functions, which take and return the list `violations`. Guard: the public
--              functions. Decides, Clean, Permitted: the specifications and that the scans decide
--              them. Accepts, Strip, Deep: what follows for the public functions.
--   Float      the floats of the program: an interface, its laws, and an instance
--   Sdk        the records of truepresence/sdk/features.py and contracts.py
--   Detectors  Signal: `DetectorSignal`. Typing: human_plausibility.py, typing_cadence.py and
--              reading_time.py. Agentic: agentic_control.py and the runner of all. Telegram:
--              telegram_community.py with the features of surfaces/telegram/community.py.
--              InOrder, Strength, TypingRisk, AgenticRisk, Risk, Graded: what the runs emit.
--   Scoring    Model: scoring/model.py and weights.py, function by function; the steps of
--              `score_interaction` have a name each. The rest is named for what it proves.
--   Decision   Packet: `EvidencePacket` of truepresence/evidence/packet.py, with Python's truth of a
--              value and `set(value)`. Tier: decision/tier_router.py. Object:
--              decision_object.py and reason_codes.py. Reports, Synthesizer:
--              decision/synthesizer.py, each `if` of `synthesize_decision` a step on the variables
--              that it assigns (`Draft`). Engine: the path of decision/engine.py from the packet to
--              the decision. Path: the same from the event, with the context that the engine
--              completes from the session, the timeline and the identity graph. Sound, Reasons, Firm,
--              Allowed, Returns, Completed, Passed, Lawful, Through, Innocent: what is proved of
--              them.
--   Evidence   evidence/packet_builder.py. Values: how it reads values of any type. Signals: the
--              `_derive_...` functions. Builder: the packet. Graph: argument_graph.py and claims.py.
--              Marked: what is proved of the graph. A step that may raise is an `Option`
--              (Base/Steps), and so is what follows it.
--   Roles      core/roles/base.py. Role: what the roles share. Simple: the liveness, mediation,
--              relay and synthesizer roles. Adversarial: the adversarial role. Judged: what it
--              has to find. Threats, Reviewed: that it does.
--   Safety     Policy: safety/policy.py, each `if` of the policy a clause. Escalation:
--              safety/escalation.py with the evidence card of evidence_minimization.py. Graded,
--              Reasons, Serious: what is proved of them.
--   Memory     Timeline: memory/session_timeline.py. Deque, History: its deques against the full
--              history of the calls. IdentityGraph: memory/identity_graph.py. Features, Symmetric,
--              Cluster: what is proved of it. `explore` runs on one step more than the graph has
--              edges, which is enough (Cluster). A set is a list of its members in the order in
--              which they came; the order in which Python goes through it is no part of the result.
--              Risk: the risk of a session. Known, Scored, Rated: what is proved of it.
--   Ensemble   ensemble/orchestrator.py. Report: the reports from the outputs of the roles. Review:
--              the review of them, and all of it as the decision reads it. Decided, Spread,
--              Supported: what is proved.
--   Runtime    runtime/distributed.py. Redis: the client and `json` as an interface with the laws of
--              a server that answers. Store: `DistributedRuntime`. Sessions: its contract. InMemory,
--              Fallback, OnRedis, Connected: that both stores keep it. Faults: what they do else.
--              A dictionary that is handed to the store belongs to it: the code keeps the object
--              itself in the memory, and the model its value.
--   Challenges Validator: challenges/validator.py. Profile: challenges/profile.py and
--              deterministic.py. Replay, Asked: what is proved of them.
--
-- Floats. The code computes on IEEE doubles. The model takes the type, its operations and the
-- literals (`dec n` is n / 100) as a record `Floats`, and the theorems take the laws that they use
-- as a record `IsFloats`: the order is total, and addition, multiplication, division, subtraction
-- and rounding keep it, on [0, 1] where that matters. Neither associativity nor distributivity is
-- among them. Float/Fixed is an instance, fixed-point numbers with four decimals, which shows that
-- the laws can hold, and at which the examples run. A sum is taken from the left, and `float(text)`
-- is the parameter `parse_float`. NaN is no value of the model.
--
-- Text. A `str` is the list of its code points. `str.lower` outside ASCII is the parameter `wide`
-- of the definitions, one character at a time; Python lowers a Greek capital sigma by its place in
-- the word, which is no matter here, since no field set holds either small sigma. `str(n)` runs on
-- n + 1 steps, which is enough for the digits of n.
--
-- Payloads. Keys are texts, as in every decoded JSON object. Recursion is structural. `dict(value)` of
-- a list of pairs is taken to raise, as it does for every other value that is no dictionary and not
-- empty.
--
-- Not modelled: the validation that pydantic does, the HTTP layer, the file stores, the
-- Telegram adapters, the orchestrators and the language-model roles, the analyze wrappers of the
-- roles, the summaries of a packet for logs and for roles, and the separate tools under ese/ and
-- onedrive-cleaner/. An identifier that the code draws at random is an argument.

pub mod Base
pub mod Json
pub mod Privacy
pub mod Float
pub mod Sdk
pub mod Detectors
pub mod Scoring
pub mod Decision
pub mod Safety
pub mod Memory
pub mod Roles
pub mod Evidence
pub mod Runtime
pub mod Challenges
pub mod Ensemble
