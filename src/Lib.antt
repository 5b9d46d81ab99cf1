-- ===== src/Lib.antt =====
-- Offline PKI forensics: the service (app/*.py) decides whether an artifact was validly signed
-- at the moment of signing, from a sealed set of certificates, CRLs and OCSP responses. This
-- library models the service's store with the endpoints on it, and the decisions: the engine
-- with its path search, the path rules, name constraints, policies, signature profile and
-- revocation. The search of app/graph.py asks the revocation evaluator of app/revocation.py for
-- the status of each certificate under its issuer, and the rules of app/pki.py for the whole
-- path at an anchor.
--
-- Cert.antt holds `CertInfo` and the data that it is made of (app/pki.py). Profile.antt is the
-- algorithm profile, `signature_algorithm_descriptor`, `public_key_descriptor` and
-- `verify_signature` of app/profile.py. Names.antt is `check_name_constraints` with its
-- matchers, and Policy.antt `evaluate_policies`, both of app/pki.py. Der.antt is the DER reader
-- and encoder of app/derutil.py; Der/CrlEntries.antt has its times and CRL entries, and
-- Der/Algorithms.antt the algorithms of OCSP responses. Its loops have as much fuel as there
-- are bytes, and each round reads a TLV, which takes at least two.
--
-- Graph.antt holds the `Explorer` with its arguments (record `Explorer`) and the fields that a
-- search changes (record `Explored`); Graph/Checks.antt has its `_leaf_prechecks`,
-- `_edge_checks` and `_terminal_checks`, Graph/Search.antt `_dfs` and `search`, and
-- Graph/Trace.antt `trace_path`. A state goes in and comes out of each function. The branch
-- budget of the source is a counter in that state, and running out of it is the result
-- `out_of_budget`; the recursion is on the depth limit, as in the source.
--
-- Revocation.antt holds CRLs, OCSP responses, views and the state of `RevocationEvaluator`;
-- Revocation/Evidence.antt tells which evidence counts, Revocation/Delta.antt merges delta
-- CRLs, Revocation/Gather.antt has the loops of `_compute` over the evidence, and
-- Revocation/Evaluate.antt the selection of a view, the conclusion, and `status` with its
-- cache.
--
-- Parameters stand for what the `cryptography` library and the standard library do:
-- `pub_verify` verifies a signature by an accepted scheme, `hostname` is that of `urlsplit`,
-- `digest`, `key_bits` and `parse_certificate` are hashes, key contents and, for the engine,
-- the parser, and `get_cert`, `get_crl` and `get_ocsp` the store's readers. Times are
-- microseconds, hashes and DER names hex texts. The free texts `detail` of results are left
-- out.
--
-- Canonical.antt has JSON values and their canonical text (app/canonical.py),
-- Canonical/Times.antt its times and fingerprints, and Canonical/Equality.antt Python's `==` on
-- JSON values; Canonical/RoundTrip.antt says in `IsCalendar` what the times rely on of
-- `datetime`. Store.antt has the four tables and the statements on them (app/store.py);
-- Store/Laws.antt and Store/Extends.antt are their laws. Api.antt has the checks of requests
-- and `run_idempotent` of app/api.py with the constants of app/profile.py and the errors of
-- app/errors.py, Api/Objects.antt `add_objects`, Api/Seal.antt `seal` and the readers of sets,
-- and Api/Adjudications.antt the three phases of `adjudicate` and the readers of verdicts. An
-- endpoint checks its request first and then runs one transaction, a function from a database
-- to a result and a database; a result that is an error leaves the database as it was, as
-- ROLLBACK does. Api/Steps.antt puts transactions of any clients after one another, which is
-- what BEGIN IMMEDIATE grants; the phases 1 and 3 of an adjudication are separate transactions,
-- with any others between them.
--
-- The record `Host` holds what the endpoints call of other code: the hashes, base64, the JSON
-- parser, the calendar and, as `x509`, the `cryptography` package; the record `Engine` holds
-- `run_engine` of app/adjudicate.py. Columns that hold the JSON text of counts or metadata keep
-- the value instead.
--
-- Adjudicate.antt has the objects, the normalized input, the indexes of `explore_once` of
-- app/adjudicate.py and `_compute_anchor_reachable` of app/graph.py, whose loop has fuel for
-- each object and one more; Adjudicate/Engine.antt has `_check_artifact_signature`,
-- `explore_once` and `run`, which build an `Explorer` and an `Evaluator` from the objects,
-- search, and search again on what was touched until all is. That loop, too, has fuel for each
-- object and one more.
--
-- Parse.antt has records of what the parsers read of the objects that the `cryptography`
-- package makes of some bytes; Parse/Certificates.antt is `parse_certificate` of app/pki.py,
-- Parse/Crl.antt and Parse/Ocsp.antt are `parse_crl` and `parse_ocsp` of app/revocation.py, and
-- Parse/Meta.antt is `compute_meta` of app/objmeta.py on them. Normalize.antt is
-- `validate_input` of app/adjudicate.py. Verify.antt is `verify_pack` of app/verify.py, whose
-- checks end with a value, a failure or an exception that is not caught; the record `Calls`
-- holds `run_engine`. The endpoints and the verifier call `compute_meta` and `validate_input`;
-- the engine of Adjudicate.antt, which has its own normalized input and objects, takes the
-- parsers as parameters.
--
-- Not modelled: the rendering of a verdict as JSON (`run_engine` is a parameter of the
-- endpoints and of the pack verifier for that reason), the texts of details and messages, the
-- lines of the log and the command line of app/verify.py, and the sources that read objects
-- from a database or a pack, which only hand on rows; routing, the fixed answers of `healthz`
-- and `get_profile` and the bodies of error responses (app/api.py); and SQLite errors other
-- than a repeated key. tests, acceptance and the Dockerfile are not part of the program.
pub mod Prelude
pub mod Cert
pub mod Canonical
pub mod Store
pub mod Api
pub mod Samples
pub mod Profile
pub mod Der
pub mod Names
pub mod Policy
pub mod Graph
pub mod Revocation
pub mod Adjudicate
pub mod Normalize
pub mod Parse
pub mod Verify
