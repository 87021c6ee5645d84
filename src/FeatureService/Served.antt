-- ===== src/FeatureService/Served.antt =====
-- What the local feature service returns, and the clients that it keeps.
use feathub.Prelude.{
  ◌≡◌, refl, sym, ap, not_true, ◌∙◌, Bool, true, false, String, List, [], ◌∷◌, Option, none, some,
  string_eq, HasEq, ◌==◌, Bool-cases, inl, inr,
}
use feathub.Dict.{get as dict_get, insert, get-insert}
use feathub.Common.Actions.{lift, Post, Post-continue, Post-mono, Post-lift, continue_with}
use feathub.Errors.{feathub_exception, guard, Result, ok, bind-eq-ok, ok-injective, traverse}
use feathub.LocalProcessor.Frame.{Frame, select_fields, select_cells}
use feathub.OnlineStore.{MemoryOnlineStore}
use feathub.OnlineStore.Get.{Pandas}
use feathub.Views.{Feature, Transform, join_transform, expression_transform}
use feathub.FeatureService.{
  evaluate_expression, from_memory, Source, memory_store_source, remote_source, other_source,
  OnDemandView, ViewArgument, Service, Clients, client_or_new, get_online_store_client, from_source,
  evaluate_join, serve_by, serve, get_view, output_of, get_online_features,
}

module _ {V : Type 0} ⦃e : HasEq V⦄ (pd : Pandas V) (store : MemoryOnlineStore V)
    (service : Service V) where
  open service use {Client}

  select_fields-columns :
      (names : List String) (df result : Frame V)
      → select_fields names df ≡ ok result
      → result.columns ≡ names
  unfolding select_fields
  select_fields-columns names df result h =
      let (rows, h1, h2) = bind-eq-ok (traverse (select_cells names) df.rows) _ h in
      rw (sym (ok-injective h2)) refl

  -- Each client is still there under its name.
  abbrev pub Keeps : Clients pd store service → Clients pd store service → Type 0
  Keeps before after =
      (name : String) (c : Client) → dict_get name before ≡ some c → dict_get name after ≡ some c

  Keeps-insert :
      (name : String) (c : Client) (clients : Clients pd store service)
      → dict_get name clients ≡ none
      → Keeps clients (insert name c clients)
  Keeps-insert name c clients absent other d k = elim (Bool-cases (name == other)) [
    | inl same ↦ absurd (
        none_some
          (sym absent ∙ ap (λ n. dict_get n clients) ((string_eq.eqb_iff name other).0 same) ∙ k))
    | inr differ ↦ rw (get-insert name other c clients, differ) k
  ]
    where
      none_some : {A : Type 0} {a : A} → none ≡ some a → ⊥
      none_some h = not_true (ap is_some h)
        where
          is_some : {B : Type 0} → Option B → Bool
          is_some none = false
          is_some (some b) = true

  -- The clients before are kept, whether the method returns or raises.
  abbrev Kept :
      {A : Type 0} → Clients pd store service → Result A × Clients pd store service → Type 0
  Kept clients r = Post (λ a after. Keeps clients after) (λ e after. Keeps clients after) r

  Kept-lift :
      {A : Type 0} (r : Result A) (clients : Clients pd store service) → Kept clients (r, clients)
  Kept-lift r clients = Post-lift _ _ r clients (λ a e n d k. k) (λ e h n d k. k)

  Kept-continue :
      {A B : Type 0} (clients : Clients pd store service) (r : Result A × Clients pd store service)
      (f : A → Clients pd store service → Result B × Clients pd store service)
      → Kept clients r
      → ((a : A) (after : Clients pd store service) → Kept after (f a after))
      → Kept clients (continue_with r f)
  Kept-continue clients r f h next =
      Post-continue _ (λ b last. Keeps clients last) _ r f h
        (λ a after kept.
          Post-mono (λ b last. Keeps after last) (λ b last. Keeps clients last)
            (λ e last. Keeps after last) (λ e last. Keeps clients last) (f a after) (next a after)
            (λ b last k n c found. k n c (kept n c found))
            (λ e last k n c found. k n c (kept n c found)))

  client_or_new-Kept :
      (name : String) (clients : Clients pd store service) (found : Option Client)
      → dict_get name clients ≡ found
      → Kept clients (client_or_new pd store service name found clients)
  client_or_new-Kept name clients (some c) e = λ n d k. k
  client_or_new-Kept name clients none e =
      Post-continue (λ c after. after ≡ clients) _ _ (service.instantiate name, clients) _
        (Post-lift _ _ (service.instantiate name) clients (λ c h. refl) (λ r h n d k. k))
        (λ c after same. rw same (Keeps-insert name c clients e))

  from_source-Kept :
      (source : Source) (expr : String) (df : Frame V) (clients : Clients pd store service)
      → Kept clients (from_source pd store service source expr df clients)
  unfolding get_online_store_client
  from_source-Kept (memory_store_source table) expr df clients =
      Kept-lift (from_memory pd store service table df) clients
  from_source-Kept (remote_source name) expr df clients =
      Kept-continue clients (get_online_store_client pd store service name clients)
        (λ c. lift (service.client_get c df (service.get_var_name expr ∷ [])))
        (client_or_new-Kept name clients _ refl)
        (λ c after. Kept-lift (service.client_get c df (service.get_var_name expr ∷ [])) after)
  from_source-Kept other_source expr df clients = λ n d k. k

  serve_by-Kept :
      (t : Transform) (f : Feature) (df : Frame V) (clients : Clients pd store service)
      → Kept clients (serve_by pd store service t f df clients)
  unfolding evaluate_join
  serve_by-Kept (join_transform table expr) f df clients =
      Kept-continue clients (guard (service.is_id expr) feathub_exception, clients) _
        (Kept-lift (guard (service.is_id expr) feathub_exception) clients)
        (λ done after.
          Kept-continue after (service.get_source table, after)
            (λ source. from_source pd store service source expr df)
            (Kept-lift (service.get_source table) after)
            (λ source last. from_source-Kept source expr df last))
  serve_by-Kept (expression_transform expr) f df clients =
      Kept-lift (evaluate_expression pd store service expr f.name df) clients
  serve_by-Kept _ f df clients = λ n d k. k

  serve-Kept :
      (fs : List Feature) (df : Frame V) (clients : Clients pd store service)
      → Kept clients (serve pd store service fs df clients)
  unfolding serve
  serve-Kept [] df clients = λ n d k. k
  serve-Kept (f ∷ fs) df clients =
      Kept-continue clients (serve_by pd store service f.transform f df clients)
        (serve pd store service fs) (serve_by-Kept f.transform f df clients)
        (λ next after. serve-Kept fs next after)

  -- Whether get_online_features returns or raises, every client that was there is still there under its
  -- name. If it returns, it has found the view, and the result has the requested columns, or where none
  -- are requested those that the view outputs for the columns of the request, in their order.
  pub get_online_features-columns :
      (request_df : Frame V) (argument : ViewArgument) (names : Option (List String))
      (clients : Clients pd store service)
      → Post
          (λ result after.
            Keeps clients after
            × (view : OnDemandView) × (get_view pd store service argument ≡ ok view)
            × (result.columns ≡ output_of pd store service names view request_df.columns))
          (λ raised after. Keeps clients after)
          (get_online_features pd store service request_df argument names clients)
  unfolding get_online_features
  get_online_features-columns request_df argument names clients =
      let kept_from : (view : OnDemandView) (before : Clients pd store service)
          → before ≡ clients
          → Kept clients (serve pd store service view.features request_df before) =
        λ view before same. rw same (serve-Kept view.features request_df clients) in
      Post-continue
        (λ view before. (before ≡ clients) × (get_view pd store service argument ≡ ok view)) _ _
        (get_view pd store service argument, clients) _
        (Post-lift _ _ (get_view pd store service argument) clients (λ view found. (refl, found))
          (λ raised h n d k. k))
        (λ view before ready.
          Post-continue (λ served after. Keeps clients after) _ _
            (serve pd store service view.features request_df before) _
            (kept_from view before (ready.0))
            (λ served after kept.
              Post-lift _ _
                (select_fields (output_of pd store service names view request_df.columns) served)
                after (λ result h. (kept, view, ready.1, select_fields-columns _ served result h))
                (λ raised h. kept)))
