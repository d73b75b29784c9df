-- ===== src/Server/Serve/Session/Replies.antt =====
-- A message is answered as the specification says.
use package_index.Base.{
  ℕ, suc, none, some, List, ◌++◌, ◌≡◌, ◌≢◌, ◌∙◌, refl, ap, subst, Bytes, ◌==◌, bytes_eq, Bool-cases,
  inl, inr,
}
use package_index.Base.Text.{codes}
use package_index.Base.Maps.{has}
use package_index.Base.Sets.{Distinct}
use package_index.Index.{range}
use package_index.Index.Graph.{Graph, add_package, drop_package}
use package_index.Index.Api.{IndexApi, IsIndex}
use package_index.Server.WireFormat.{Message, Parsed, returns, panics}
use package_index.Server.Bufio.{buffer_full, Arrival}
use package_index.Server.ReadMessage.{failed, parsed}
use package_index.Server.Serve.{
  written, sent, error_response, World, Status, going, respond, handle, react, first, others,
}
use package_index.Server.Serve.Session.{verdict, spec_handle, reply_to, Ready}

module _ {ℓ} {S : Type ℓ} (api : IndexApi S) (promise : IsIndex api) where
  open promise use {Good, view, weaken, index_view, remove_view, query_view}

  -- The switch on the command does to the graph what the protocol says, and answers the same.
  pub handle-spec_handle :
      (n : ℕ) (m : Message) (s : S) (g : Graph)
      → Good (suc n) s
      → view s ≡ g
      → Distinct (range m.dependencies)
      → Good n (handle api m s).0
        × ((view (handle api m s).0, (handle api m s).1) ≡ spec_handle m g)
  unfolding handle spec_handle
  handle-spec_handle n m s g good shows d = elim (Bool-cases (m.command == codes "INDEX")) [
    | inl i ↦ rw i (
        let (good', e) = index_view n m.pkg m.dependencies s good d in
        (
          good',
          ap verdict e
              ∙ ap (λ (x : Graph). verdict (add_package m.pkg (range m.dependencies) x)) shows,
        ))
    | inr ni ↦ rw ni (elim (Bool-cases (m.command == codes "REMOVE")) [
      | inl r ↦ rw r (
          let (good', e) = remove_view n m.pkg s good in
          (good', ap verdict e ∙ ap (λ (x : Graph). verdict (drop_package m.pkg x)) shows))
      | inr nr ↦ rw nr (elim (Bool-cases (m.command == codes "QUERY")) [
        | inl q ↦ rw q (
          weaken n s good,
          λ i. verdict (shows i, (query_view (suc n) m.pkg s good ∙ ap (has m.pkg) shows) i),
        )
        | inr nq ↦ rw nq (weaken n s good, λ i. (shows i, error_response))
      ])
    ])
  ]

module _ {ℓ} {S : Type ℓ} (api : IndexApi S) (promise : IsIndex api) (size : ℕ) where
  open promise use {Good, view, weaken}

  stored-Ready :
      (n k : ℕ) (g h : Graph) (out : Bytes) (rest : List Arrival) (w : World S) (s : S)
      → Ready api promise size n g out rest w
      → Good k s
      → view s ≡ h
      → Ready api promise size k h out rest (record w { store = s })
  stored-Ready n k g h out rest w s r good shows = record {
    incoming_is = r.incoming_is;
    deadlines_is = r.deadlines_is;
    writes_is = r.writes_is;
    output_is = r.output_is;
    good = good;
    shows = shows;
    uniform = r.uniform;
    sized = r.sized;
  }

  respond-Ready :
      (n : ℕ) (g : Graph) (out resp : Bytes) (rest : List Arrival) (w : World S)
      → Ready api promise size n g out rest w
      → Ready api promise size n g (out ++ resp) rest (record w { conn = respond resp w.conn })
  unfolding respond
  respond-Ready n g out resp rest w r = record {
    incoming_is = r.incoming_is;
    deadlines_is = r.deadlines_is;
    writes_is = ap others r.writes_is;
    output_is = λ i. r.output_is i ++ written (first sent (r.writes_is i)) resp;
    good = r.good;
    shows = r.shows;
    uniform = r.uniform;
    sized = r.sized;
  }

  -- After a message is read, its reply is sent and the graph is what the specification says.
  abbrev pub Replied : ℕ → Graph → Bytes → List Arrival → Graph × Bytes → World S × Status → Type ℓ
  Replied n g out rest q r = (r.1 ≡ going) × Ready api promise size n q.0 (out ++ q.1) rest r.0

  pub react-Replied :
      (n : ℕ) (g : Graph) (out : Bytes) (rest : List Arrival) (w : World S) (p : Parsed)
      → Ready api promise size (suc n) g out rest w
      → p ≢ panics
      → ((m : Message) → p ≡ returns m none → Distinct (range m.dependencies))
      → Replied n g out rest (reply_to p g) (react api (parsed p) w)
  unfolding react
  react-Replied n g out rest w (returns m none) r ne d =
      let (good, e) = handle-spec_handle api promise n m w.store g r.good r.shows (d m refl) in
      let (s, resp) = handle api m w.store in
      let q = spec_handle m g in
      (
        refl,
        subst
            (λ (x : Bytes).
              Ready api promise size n q.0 (out ++ x) rest
                (record w { conn = respond resp w.conn; store = s }))
            (ap (λ (x : Graph × Bytes). x.1) e)
            (respond-Ready n q.0 out resp rest (record w { store = s })
              (stored-Ready (suc n) n g q.0 out rest w s r good
                (ap (λ (x : Graph × Bytes). x.0) e))),
      )
  react-Replied n g out rest w (returns m (some e)) r ne d = (
    refl,
    respond-Ready n g out error_response rest w
        (stored-Ready (suc n) n g g out rest w w.store r (weaken n w.store r.good) r.shows),
  )
  react-Replied n g out rest w panics r ne d = absurd (ne refl)

  -- A message that is too large is answered by an error.
  pub large-Replied :
      (n : ℕ) (g : Graph) (out : Bytes) (rest : List Arrival) (w : World S)
      → Ready api promise size (suc n) g out rest w
      → Replied n g out rest (g, error_response) (react api (failed buffer_full) w)
  unfolding react
  large-Replied n g out rest w r = (
    refl,
    respond-Ready n g out error_response rest w
        (stored-Ready (suc n) n g g out rest w w.store r (weaken n w.store r.good) r.shows),
  )
