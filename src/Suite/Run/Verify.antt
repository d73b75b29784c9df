-- ===== src/Suite/Run/Verify.antt =====
-- What a test client's checks mean to a server that keeps the protocol.
use package_index.Base.{
  ◌∙◌, Bool, true, false, Option, List, [], ◌∷◌, ◌++◌, ◌≡◌, ◌≢◌, some, ◌↔◌, refl, ap, All, Bytes,
  if◌then◌else◌, bytes_eq, arith, bytes_beq, Bool-cases, inl, inr,
}
use package_index.Base.Maps.{has}
use package_index.Index.Graph.{Graph}
use package_index.Server.WireFormat.{parse_message}
use package_index.Server.Serve.Session.{reply_to, spec_handle}
use package_index.Suite.Client.{ResponseCode, ok, fail, response_code}
use package_index.Suite.Packages.{Package, trim_right, keep_unless}
use package_index.Suite.WireFormat.{make_query_message}
use package_index.Suite.WireFormat.Answers.{IsNamed, make_remove_message-parse}
use package_index.Suite.Run.{
  Outcome, fine, returns_error, panics, outcome, is_code, send_for, verify_all_packages,
}

-- A client's Send to a server that keeps the protocol, the only client of it.
unfoldable pub answer : Graph → Bytes → Graph × Option ResponseCode
answer g msg =
    let (g', out) = reply_to (parse_message (msg ++ b'\n' ∷ [])) g in (g', response_code out)

abbrev pub code_of : Bool → ResponseCode
code_of b = if b then ok else fail

answer_query :
    (b : Bool) (p : Package) (g : Graph)
    → IsNamed p
    → has p.name g ≡ b
    → answer g (make_query_message p) ≡ (g, some (code_of b))
unfolding answer spec_handle bytes_beq response_code trim_right keep_unless
answer_query true p g n h = rw ((make_remove_message-parse p n).1, h) refl
answer_query false p g n h = rw ((make_remove_message-parse p n).1, h) refl

pub verify_step :
    (b c : Bool) (p : Package) (g : Graph)
    → IsNamed p
    → has p.name g ≡ c
    → send_for answer (code_of b) (some (make_query_message p)) g
      ≡ (g, outcome (is_code (code_of b) (some (code_of c))))
unfolding send_for
verify_step b c p g n h = rw (answer_query c p g n h) refl

error-ne-fine : returns_error ≢ fine
error-ne-fine h = cc

verify_stopped :
    (expected : ResponseCode) (ps : List Package) (g : Graph)
    → verify_all_packages answer expected ps (g, returns_error) ≡ (g, returns_error)
unfolding verify_all_packages
verify_stopped expected [] g = refl
verify_stopped expected (p ∷ ps) g = refl

-- The check changes nothing.
pub verify_all_packages-keeps :
    (b : Bool) (ps : List Package) (g : Graph) (o : Outcome)
    → All IsNamed ps
    → (verify_all_packages answer (code_of b) ps (g, o)).0 ≡ g
unfolding verify_all_packages
verify_all_packages-keeps b [] g o n = refl
verify_all_packages-keeps b (p ∷ ps) g fine n =
    ap (λ (x : Graph × Outcome). (verify_all_packages answer (code_of b) ps x).0)
      (verify_step b (has p.name g) p g n.0 refl)
    ∙ verify_all_packages-keeps b ps g
        (outcome (is_code (code_of b) (some (code_of (has p.name g))))) n.1
verify_all_packages-keeps b (p ∷ ps) g returns_error n = refl
verify_all_packages-keeps b (p ∷ ps) g panics n = refl

-- For packages with names that the format can carry, the check of the packages, as the only client
-- of a server that keeps the protocol, ends without an error and with the index as it was exactly
-- if each package is indexed, when OK is expected, and exactly if none is, when FAIL is expected.
pub verify_all_packages-has :
    (b : Bool) (ps : List Package) (g : Graph)
    → All IsNamed ps
    → (verify_all_packages answer (code_of b) ps (g, fine) ≡ (g, fine))
      ↔ All (λ p. has p.name g ≡ b) ps
unfolding verify_all_packages
verify_all_packages-has b [] g n = ((λ h. tt), λ h. refl)
verify_all_packages-has true (p ∷ ps) g n = elim (Bool-cases (has p.name g)) [
  | inl there ↦ rw (verify_step true true p g n.0 there) (
    (λ h. (there, (verify_all_packages-has true ps g n.1).0 h)),
    λ h. (verify_all_packages-has true ps g n.1).1 h.1,
  )
  | inr missing ↦
      rw (verify_step true false p g n.0 missing, verify_stopped (code_of true) ps g)
        (
          (λ h. absurd (error-ne-fine (ap (λ (r : Graph × Outcome). r.1) h))),
          λ h. absurd (ground (arith, h.0, missing)),
        )
]
verify_all_packages-has false (p ∷ ps) g n = elim (Bool-cases (has p.name g)) [
  | inl there ↦
      rw (verify_step false true p g n.0 there, verify_stopped (code_of false) ps g)
        (
          (λ h. absurd (error-ne-fine (ap (λ (r : Graph × Outcome). r.1) h))),
          λ h. absurd (ground (arith, h.0, there)),
        )
  | inr missing ↦ rw (verify_step false false p g n.0 missing) (
    (λ h. (missing, (verify_all_packages-has false ps g n.1).0 h)),
    λ h. (verify_all_packages-has false ps g n.1).1 h.1,
  )
]
