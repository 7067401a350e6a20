-- ===== src/Gateway/Routes.antt =====
-- Where the worker sends a request (`fetch` of deploy/worker/index.mjs).
use mathlib.Core.Option
use akamata.Prelude.{
  Option-cases, ◌≤◌, ◌≡◌, ◌≢◌, refl, sym, ap, ◌∙◌, subst, ◌++◌, of_some, true, false, Option, none,
  some, [], ◌∷◌, arith, length, Bool-cases, inl, inr,
}
use akamata.Text.{Text, text, to_lower}
use akamata.Text.Laws.{same_iff, same-false}
use akamata.Text.Search.{Avoids}
use akamata.Http.{Request}
use akamata.Realtime.Join.{is_text}
use akamata.Gateway.{
  strip_prefix, segment, has_slash, is_internal_path, chat_room_name, realtime_name, header,
  rejected, authorizes, max_authorization, credentials, authorize, realtime_route, chat_route,
  gateway_begin, application_accepts,
}
use akamata.Gateway.Uri.{decode_component}

-- A request to open the realtime resource, with the credentials: it asks for a websocket at a path of one nonempty
-- segment behind "/realtime/" that decodes to the resource, and its `Authorization` is of 1 to 8192 code units.
pub record IsOpening (r : Request) (resource credential : Text) : Type 0 where
  pub name : Text
  pub path : r.pathname ≡ text "/realtime/" ++ name
  pub named : name ≢ []
  pub one_segment : Avoids b'/' name
  pub upgrades :
      (u : Text) × (header (text "upgrade") r.headers ≡ some u) × (to_lower u ≡ text "websocket")
  pub decoded : decode_component name ≡ some resource
  pub shown : header (text "authorization") r.headers ≡ some credential
  pub nonempty : credential ≢ []
  pub short : length credential ≤ 8192

strip_prefix_sound : (p s t : Text) → strip_prefix p s ≡ some t → s ≡ p ++ t
unfolding strip_prefix
strip_prefix_sound [] s t e = of_some e
strip_prefix_sound (c ∷ p) [] t e = ground arith
strip_prefix_sound (c ∷ p) (d ∷ s) t e = ground (arith, strip_prefix_sound p s t)

slashless : (s : Text) → has_slash s ≡ false → Avoids b'/' s
slashless [] e = tt
slashless (c ∷ s) e = ground (arith, slashless s)

segment_sound : (s t : Text) → segment s ≡ some t → (s ≡ t) × (t ≢ []) × Avoids b'/' t
unfolding segment
segment_sound [] t e = ground arith
segment_sound (c ∷ s) t e = elim (Bool-cases (has_slash (c ∷ s))) [
  | inl q ↦ ground arith
  | inr q ↦
      let w : c ∷ s ≡ t = ground arith in
      (w, subst (λ u. u ≢ []) w (λ z. ground arith), subst (Avoids b'/') w (slashless (c ∷ s) q))
]

realtime_name_sound :
    (p name : Text)
    → realtime_name p ≡ some name
    → (p ≡ text "/realtime/" ++ name) × (name ≢ []) × Avoids b'/' name
unfolding realtime_name Option.bind
realtime_name_sound p name e = elim (Option-cases (strip_prefix (text "/realtime/") p)) [
  | inl q ↦ let z : none ≡ some name = sym (ap (λ o. Option.bind o segment) q) ∙ e in ground arith
  | inr (s, q) ↦
      let z : segment s ≡ some name = sym (ap (λ o. Option.bind o segment) q) ∙ e in
      let (w, n, a) = segment_sound s name z in
      (strip_prefix_sound (text "/realtime/") p s q ∙ ap (λ u. text "/realtime/" ++ u) w, n, a)
]

upgrade_sound :
    (o : Option Text)
    → is_text (Option.map to_lower o) (text "websocket") ≡ true
    → (u : Text) × (o ≡ some u) × (to_lower u ≡ text "websocket")
upgrade_sound none e = ground arith
upgrade_sound (some u) e = (u, refl, (same_iff (to_lower u) (text "websocket")).0 e)

-- not one of the two internal paths
abbrev pub IsPublic : Text → Type 0
IsPublic p = (p ≢ text "/__akamata/realtime/authorize") × (p ≢ text "/realtime/message")

public : (p : Text) → is_internal_path p ≡ false → IsPublic p
unfolding is_internal_path
public p e = (
  same-false p (text "/__akamata/realtime/authorize") (ground arith),
  same-false p (text "/realtime/message") (ground arith),
)

credentials_sound :
    (o : Option Text) (a : Text)
    → credentials o ≡ some a
    → (o ≡ some a) × (a ≢ []) × (length a ≤ max_authorization)
unfolding credentials
credentials_sound none a e = ground arith
credentials_sound (some []) a e = ground arith
credentials_sound (some (c ∷ s)) a e = ground arith

authorize_sound :
    (name : Text) (o : Option Text) (resource a : Text)
    → authorize name o ≡ authorizes resource a
    → (decode_component name ≡ some resource) × (credentials o ≡ some a)
unfolding authorize
authorize_sound name o resource a e = ground arith

realtime_sound :
    (o : Option Text) (r : Request) (resource a : Text)
    → realtime_name r.pathname ≡ o
    → realtime_route o r ≡ authorizes resource a
    → IsOpening r resource a
unfolding realtime_route
realtime_sound none r resource a path e = ground arith
realtime_sound (some name) r resource a path e =
    elim (Bool-cases
      (is_text (Option.map to_lower (header (text "upgrade") r.headers)) (text "websocket"))) [
        | inr not_upgrading ↦ ground arith
        | inl upgrading ↦ opening upgrading (ground arith)
      ]
  where
    opening :
        is_text (Option.map to_lower (header (text "upgrade") r.headers)) (text "websocket") ≡ true
        → authorize name (header (text "authorization") r.headers) ≡ authorizes resource a
        → IsOpening r resource a
    opening up e =
        let (decoded, c) =
          authorize_sound name (header (text "authorization") r.headers) resource a e in
        let (shown, nonempty, short) =
          credentials_sound (header (text "authorization") r.headers) a c in
        let (behind, named, one_segment) = realtime_name_sound r.pathname name path in
        record {
          name = name;
          path = behind;
          named = named;
          one_segment = one_segment;
          upgrades = upgrade_sound (header (text "upgrade") r.headers) up;
          decoded = decoded;
          shown = shown;
          nonempty = nonempty;
          short = short;
        }

chat_sound :
    (o : Option Text) (r : Request) (resource a : Text)
    → chat_route o r ≡ authorizes resource a
    → IsOpening r resource a
unfolding chat_route
chat_sound none r resource a e = realtime_sound (realtime_name r.pathname) r resource a refl e
chat_sound (some name) r resource a e =
    realtime_sound (realtime_name r.pathname) r resource a refl (ground arith)

-- If the worker asks the application to authorize, then the request asks for a websocket, its path is "/realtime/" and one
-- nonempty segment that decodes to the resource that the worker asks about, and its `Authorization`, of 1 to 8192 code units, is what
-- the worker shows; and the path is neither "/__akamata/realtime/authorize" nor "/realtime/message".
pub gateway_begin-authorizes :
    (r : Request) (resource a : Text)
    → gateway_begin r ≡ authorizes resource a
    → IsOpening r resource a × IsPublic r.pathname
unfolding gateway_begin
gateway_begin-authorizes r resource a e = (
  chat_sound (chat_room_name r.pathname) r resource a (ground arith),
  public r.pathname (ground arith),
)

-- A request that the public worker does not answer with 404 and `not_found`, so one that it passes
-- on to the instance, to a chat room or to the authorization among them, is one that the
-- entrypoint of the control plane would refuse.
pub gateway_begin-application :
    (r : Request)
    → gateway_begin r ≢ rejected 404 (text "not_found")
    → application_accepts r ≡ false
unfolding gateway_begin application_accepts is_internal_path
gateway_begin-application r e = ground arith
