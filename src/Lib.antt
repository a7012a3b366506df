-- ===== src/Lib.antt =====
-- Consilium: the records and decisions of governance forums (apps/consilium/consilium).
--
-- The program keeps DocType rows in tables; controllers check a row when it is saved, and service
-- modules read and write rows through them. Here a table is the list of its rows, a row is a
-- record, and an operation takes the tables it uses and returns them, or the refusal or error
-- that it raises. An error that the code does not catch stands for the whole transaction: no
-- table changes. Names of rows, users, roles, states and fields, and days and times, are numbers:
-- the code only compares them, and only the clocks reckon with times. A missing value is `none`,
-- as the code treats a null and an empty string alike. The clock, the session's user and the
-- names of new rows are arguments.
--
-- Base: shared tests, lists, tables and results.
-- StateFlags: consilium_core/state_flags.py, which derives a record's semantic flags from its state
--   label by the configured Workflow State Flag rows. A record type is an instance of `Stateful`,
--   which the approval decisions, motions, clocks and disposal events give.
-- Delegation: consilium_core/delegation.py and the Authority Delegation controller.
-- Approvals: consilium_core/approvals.py and the Approval Decision controller; it asks Delegation
--   who may act and StateFlags for the flags of a label.
-- Membership: governance/membership.py; Membership/Seating: the Forum Membership controller.
-- Voting: the Forum Vote and Forum Motion controllers; Voting/Ballots, Voting/Outcome and
--   Voting/Screen: governance/voting.py. Voting asks Membership who holds a seat as at a date and
--   what a quorum is.
-- Classification: consilium_core/classification.py; Classification/Assess evaluates a rule set.
-- Versions: consilium_core/versioning.py, append_only.py and the Document Version controller;
--   Versions/Revert: the revert.
-- WorkingTime: consilium_core/sla.py `_business_target` and the Business Calendar.
-- Clocks: the rest of consilium_core/sla.py that writes clocks, with the SLA Clock: starting and
--   stopping; Clocks/Sweep: the sweep; Clocks/History: the intervals in a state from the change log;
--   Clocks/Sync: clocks made to match them, hourly and on a save; Clocks/Durations: the stretches of
--   consilium_core/state_durations.py. Clocks asks StateFlags for the flags of a status.
-- Retention: consilium_core/retention.py with the Legal Hold and Disposition Event controllers;
--   Retention/Events: scheduling and carrying out; Retention/Sweep: the daily sweep and the release of
--   a hold; Retention/Disposal: the part of consilium_core/records.py by which two people dispose of a
--   record; Retention/Runs: runs of these.
-- Escalation: escalation/transitions.py, the moves that the rules allow an escalation matter.
-- Matters: the matters themselves. Matters/Matrix, Matters/Pathway and Matters/Rerouting are
--   escalation/routing.py: the matrix and its first rule, the pathway, and its replacement by a person;
--   Matters/Queue: escalation/assignment.py; Matters/Template: escalation/templates.py; Matters/Saving:
--   the Escalation Matter controller, with the closure and the clock of escalation/resolution.py and the
--   sensitivity that escalation/sensitivity.py hands on; Matters/Notices: whom a notice reaches;
--   Matters/Acting: the actions of its page, with the taking of a matter; Matters/Breach: its sweep of
--   breaches; Matters/Runs: runs of these. A save asks StateFlags for the flags, Escalation for the
--   moves and Clocks for the clock; Matters/Pathway asks Membership for the people of a forum.
--
-- Loops are recursion on lists. The one loop with a guard, over the days of a calendar, runs on fuel
-- that is the guard's own 3650 rounds; what it returns when they end is the code's. Instants are
-- microseconds. Quorum values and weights are counted in units of 10^-9, the decimals a column holds;
-- the percentage is exact where the source multiplies doubles.
--
-- Not modelled: the database and its connections, permissions of the framework (arguments of the
-- functions that ask), the cache of the flag map, messages and screen contexts, texts such as the
-- basis of a quorum or the reasons of a trace. The sending of notices, the driver of the hourly
-- synchronisation, the reports on clocks, the making of archives and the redaction of records are
-- left out. Of escalation matters the payload of the page, the lists for its pickers, action plans,
-- review rounds and the recording of a closure are left out; a condition of the matrix is taken as
-- parsed, and `int` of a text is a parameter. Of action plans and risk acceptances there is only the
-- sensitivity that a matter hands on. What the framework's hooks do on every save of any document (the
-- guard of Retention, the clocks of Clocks/Sync, the snapshot of Versions) is modelled with those parts
-- and is no part of the saves of the others: so a matter is saved without a snapshot, and a revert does
-- not count the version that the save of its subject may add. A condition of a classification rule is
-- taken as a tree of objects and lists over natural numbers; what the language makes of its texts and
-- the order of floats are arguments. The lifecycle of forums and the policy library are not in the
-- development.
pub mod Approvals
pub mod Base
pub mod Classification
pub mod Clocks
pub mod Delegation
pub mod Escalation
pub mod Matters
pub mod Membership
pub mod Retention
pub mod StateFlags
pub mod Versions
pub mod Voting
pub mod WorkingTime
