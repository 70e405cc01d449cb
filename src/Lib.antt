-- ===== src/Lib.antt =====
-- Continuity receipts: a model of the bundle verifier of continuity_receipt/, of what it rests on, and
-- of the receivers and tools that use it.
--
-- A task is a chain of receipts, each signed by its issuer and linked to the one before by a digest.
-- `TaskChain` builds a chain and a bundle of it; `verify_bundle` decides how far the bundle can be
-- trusted. The verifier runs guards, then passes that each append errors, missing evidence and
-- provisional reasons to a result; `_finish` turns these into one of four verdicts. A consumer's
-- policy, a verification receipt, a receiver's checkpoint and a PACMI report build on that verdict; a
-- witness file keeps the sequence of a receiver's checkpoints from going back.
--
-- Base             helpers: tests on the native numbers and texts, lists, options and integers
-- Value            what the `json` module yields, with Python's `.get`, `in`, truth, `==` and `int()`
-- Crypto           parameters: SHA-256, the URL-safe base 64 decoder, the Ed25519 check
-- Canon            continuity_receipt/canon.py: canonical bytes, digests and commitments
-- Records          continuity_receipt/records.py: tables, body validation, views and timestamps
-- Keys             continuity_receipt/keys.py: base 58, did:key names, `verify`
-- Bundle           continuity_receipt/bundle.py, with the envelopes and signing of records.py
-- Agreements       continuity_receipt/agreements.py: the bodies of offers and accepts
-- Revocations      continuity_receipt/revocations.py: `merge_statements`, `verify_statements`
-- Verify           continuity_receipt/verify.py, a child module for each pass:
--   Report         VerifyResult, `_fatal`, `_finish`; Report/Grade reads a report
--   Depth          `_depth_exceeded`
--   Shape          `_check_shape`
--   Chain, Body    the loop over the receipts, `_check_05_body`, `_check_06_body`
--   Settlement     `_check_cross_record`
--   Resolve        the tables by digest that the next two share
--   Agreement      `_check_agreements`, `_check_accept`, `_check_agreement_completeness`
--   Authority      `_check_authority`
--   Redactions     `_iter_redactions`, `_required_field_for_path`, `_check_redactions`;
--                  Place, Parts and Required prove things
--   Attestations   `_check_attestations`, `_check_provenance`
--   Revoked        `_check_revocations`
--   Anchors        `_check_anchors`, `_check_chain_head`
--   Main           `verify_bundle`
--   Accepted, Passes, Soundness, Evidence, Crash and the modules named Sound, Linked, Overflow prove things
-- Consumer         continuity_receipt/consumer.py: `_validate_policy`, `assess_bundle`
-- StrictJson       continuity_receipt/strict_json.py: `_unique_members`, `loads`; Unique proves things
-- Verification     continuity_receipt/verification.py: `verify_verification_receipt`; Issue has
--                  `issue_verification_receipt`; Members, Sound, Consistent and Roundtrip prove things
-- TraceShrink      continuity_receipt/trace_shrink.py; Reduce, Minimal and Captured prove things
-- Witness          continuity_receipt/witness.py; Follows proves things
-- WitnessFile      continuity_receipt/witness_file.py: `WitnessPublication`; Floor and Ready prove things
-- Pacmi            continuity_receipt/pacmi.py: `evaluate_pacmi`; Attacks has the changes that it tries
--                  on a bundle; Anchored, Refusals, Sound and Conformant
--                  prove things
-- Checkpoint       continuity_receipt/receiver_checkpoint.py: `assess_import`, `receive_bundle`; Time has
--                  `_time`, Statement the tests of a checkpoint; Current, Signature, Kept, Accepts
--                  and Receive prove things
-- Profile          continuity_receipt/receiver_profile.py: `validate_profile`; Sound and Valid prove things
-- Disclose         continuity_receipt/disclose.py: `attach`, `reveal`; Reveal proves things
-- Tests            concrete runs
--
-- The passes of the source append to one mutable result. Here a pass returns the entries that it
-- appends, in their order, and `all_passes` puts them in a row. Only `_check_cross_record` can let an
-- exception out, so it returns a `Run`. A Python function that raises a ValueError or a TypeError
-- which its callers handle alike returns an Option. A dict is a list of members in insertion order.
--
-- Bounds. `probe` runs on one round for each node of the value, and the worklist takes each node
-- once. `search` and `omissions` have one round more than the list has elements. `decimal` has more
-- rounds than digits, `to_bytes` more rounds than bytes. Integers are exact, as in Python.
--
-- Not modelled: the detail texts of errors, and the fixed texts and printed forms of a PACMI report;
-- the command lines; the clock, random identifiers and private keys, which are arguments of what uses
-- them; lone surrogates and digits outside ASCII in `int()` and in `_time`, and the limit of `int()` on
-- the length of a text; loading of revocation lists; the opening, locking and replacing of a witness
-- file, which is kept as the value that its text decodes to; issuing a receiver's checkpoint; `redact`;
-- a list of pairs where `dict()` is called. The
-- other modules of continuity_receipt/ (anchor, receiver_store, memory_*) and the Rust and JavaScript
-- verifiers are not modelled.
pub mod Base
pub mod Value
pub mod Crypto
pub mod Canon
pub mod Records
pub mod StrictJson
pub mod Keys
pub mod Bundle
pub mod Agreements
pub mod Revocations
pub mod Verify
pub mod Consumer
pub mod Verification
pub mod TraceShrink
pub mod Witness
pub mod WitnessFile
pub mod Pacmi
pub mod Checkpoint
pub mod Profile
pub mod Disclose
pub mod Tests
