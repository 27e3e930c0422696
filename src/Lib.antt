-- ===== src/Lib.antt =====
-- Verification library for the core of the Open Delivery Gear (odg-core, Python).
--
-- The service collects findings on artefacts of software components (vulnerabilities, licenses,
-- malware and others), categorises each by a configuration, lets users and rules rescore them,
-- and derives by when they have to be processed. This library models the parts that decide these
-- things, as pure functions of the data that the code reads.
--
-- Parts and their modules. Identities of artefacts and stored entries (odg/model.py) are modelled
-- in Artefact; filters on artefacts (odg/filter.py, and Finding.matches of odg/findings.py) in
-- Filter; sprints with their dates, and the choice of a sprint for a date (sprints/model.py,
-- sprints/util.py), in Sprint; the reading of durations (convert_to_timedelta of util.py) in
-- Duration; the configuration of findings with its selectors, categorisations, due dates and
-- validation (odg/findings.py, and rule sets of rescore/model.py) in Finding; the scopes of
-- rescorings, how they are found for a finding, and rules that are applied to a categorisation
-- (rescore/utility.py) in Rescoring; the summary of an artefact as the most severe of its
-- findings (compliance_summary.py) in Summary; violations of deadlines by releases
-- (sla_violation_profiler_extension/__main__.py) in Sla; the states of compliance snapshots
-- (odg/model.py) and the enumeration of artefacts with their backlog items
-- (artefact_enumerator.py) in Snapshot; vectors of the CVSS with the categorisation of artefacts
-- (odg/cvss.py), and the rules that match them (CveRescoringRule of rescore/model.py,
-- matching_rescore_rules of rescore/utility.py), in Cvss; the choice of the rating of a
-- vulnerability (_pick_rating of scanner_utils/cyclonedx.py) in Cyclonedx; the validation of
-- cryptographic assets against standards (crypto_extension/validate.py,
-- crypto_extension/config.py) in Crypto; the items of the backlog, their claims by pods and the
-- controller that releases claims and scales (k8s/backlog.py, backlog_controller.py) in Backlog;
-- the role bindings, the middleware that authorises requests, the roles of new users, and the
-- sessions with their refresh tokens (middleware/auth.py, secret_mgmt/rbac.py,
-- secret_mgmt/oauth_cfg.py) in Auth; the pruning of the cache (cache_manager.py) in Cache.
-- Prelude has shared types and lemmas: signed integers, results of calls that may raise, Python's
-- stable sorting, and texts. Tests runs the code on examples. All paths are below src/.
-- How they interact: Finding reads durations with Duration, adds them to dates with Sprint, and
-- keeps filters of Filter; Rescoring looks up categorisations in the configuration of Finding;
-- Summary and Sla ask Rescoring for the rescorings of a finding, and Snapshot asks Filter which
-- artefacts a configuration covers.
--
-- How code is translated. A function of the model has the name of the Python function, without
-- leading underscores. An attribute that may be None is an Option. A call that may raise gives a
-- Result with the class of the exception. An iteration over a sequence is recursion on a list; a
-- loop that returns early is a recursive function that does. A dict is a list of its items in
-- insertion order. Texts are lists of code points. A date is its proleptic day number, a
-- timedelta a whole number of seconds (the age of a claim is in microseconds), a score of the
-- CVSS a number of tenths. The weight of an entry of the cache, for which the query orders, is a
-- given integer.
--
-- Bounds. Python's integers are unbounded, so no arithmetic wraps; dates outside of the years 1
-- to 9999 and timedeltas of 10 ^ 9 days and more raise OverflowError as in Python. The only fuel
-- is that of str(n), which takes one round for each digit and is given n + 1.
--
-- Calls of the Kubernetes API in Backlog are answers that come with the arguments: a loop over
-- conflicts is recursion on the list of answers, and waits when the list ends. Backlog.Sharing
-- instead has the API as an interface, with the optimistic concurrency control that Kubernetes
-- documents as its laws, and the steps of several pods as a relation; Tests.Claiming has an API
-- that satisfies the laws.
--
-- The requests that change refresh tokens are steps, one at a time; that two requests of the same
-- user may overlap between their reading and writing of the database is not modelled.
--
-- Parameters. Regular expressions are a parameter of whatever matches them. For the selectors of
-- a configuration of findings it compiles a pattern, or raises re.error; the patterns of filters,
-- of permissions, of the bindings of roles and of the names in cryptographic standards are taken
-- as valid, so that re.fullmatch of them is a test, and those names as given (no None).
-- Parameters are also the milestones of the GitHub library, yaml.safe_load of the text of a
-- Boolean, the date parser of dateutil, the library for JSON web tokens with the validator of
-- their schema, and the members of organisations and teams that GitHub lists. The SHA-256 of an
-- identifier is a function of which nothing is assumed but that the hash of a new random
-- identifier was not seen before.
--
-- Not modelled: HTTP handlers, database queries, calls of scanners, of the Kubernetes API and of
-- GitHub, the texts of issues, and logging, which are input and output; further parts are listed
-- with their state in the manifest beside this library.
pub mod Prelude
pub mod Artefact
pub mod Auth
pub mod Backlog
pub mod Cache
pub mod Crypto
pub mod Cvss
pub mod Cyclonedx
pub mod Duration
pub mod Filter
pub mod Finding
pub mod Rescoring
pub mod Sla
pub mod Snapshot
pub mod Sprint
pub mod Summary
pub mod Tests
