-- ===== src/Routes/Urls.antt =====
-- config/urls.py and the urls.py of each app: the table of the site's addresses, with the view that
-- answers each and the name that `reverse` and `{% url %}` call it by.
use mathlib.Core.Option
use text.Mathlib.Text.{◌==◌ as str_eq}
use tucano.Prelude.{
  ℕ, Bool, false, Option, some, none, String, codes, ◌+++◌, List, [], ◌∷◌, ◌++◌, if◌then◌else◌, map,
}
use tucano.Routes.Patterns.{Atom, anything, compile, fits, spell}

pub record UrlPattern : Type 0 where
  pub route : List Atom
  pub view : String
  pub name : String

-- `path(route, view, name=name)`
abbrev pub path : String → String → String → UrlPattern
path route view name = record { route = compile false (codes route); view = view; name = name }

-- An entry of the project's table: a page of the site, or an include of another package's routes.
pub data Entry : Type 0 where
  page : UrlPattern → Entry
  external : List Atom → String → Entry

-- `path(prefix, include(module))`, where the module sets `app_name`.
abbrev pub under : String → String → UrlPattern → Entry
under prefix app_name p = page (record p {
  route = compile false (codes prefix) ++ p.route;
  name = app_name +++ ":" +++ p.name;
})

abbrev pub include : String → String → List UrlPattern → List Entry
include prefix app_name ps = map (under prefix app_name) ps

-- `path(prefix, include(package))`
abbrev pub include_package : String → String → Entry
include_package prefix name = external (compile false (codes prefix) ++ (anything ∷ [])) name

abbrev pub professionals_urls : List UrlPattern
professionals_urls =
    path "novo/" "ProfessionalProfileCreateView" "create"
    ∷ path "editar/" "ProfessionalProfileUpdateView" "update"
    ∷ path "painel/" "ProfessionalDashboardView" "dashboard"
    ∷ path "disponibilidade/nova/" "AvailabilityCreateView" "availability-create"
    ∷ path "disponibilidade/<int:pk>/excluir/" "AvailabilityDeleteView" "availability-delete"
    ∷ path "portfolio/novo/" "PortfolioItemCreateView" "portfolio-create"
    ∷ path "portfolio/<int:pk>/excluir/" "PortfolioItemDeleteView" "portfolio-delete"
    ∷ path "buscar/" "ProfessionalSearchView" "search"
    ∷ []

abbrev pub clients_urls : List UrlPattern
clients_urls =
    path "novo/" "ClientProfileCreateView" "create"
    ∷ path "painel/" "ClientDashboardView" "dashboard"
    ∷ path "favoritos/" "FavoriteListView" "favorites"
    ∷ path "favoritos/<int:professional_id>/alternar/" "FavoriteToggleView" "favorite-toggle"
    ∷ []

abbrev pub requests_urls : List UrlPattern
requests_urls =
    path "novo/" "ServiceRequestCreateView" "create"
    ∷ path "compativeis/" "ServiceRequestCompatibleListView" "compatible-list"
    ∷ path "<int:pk>/" "ServiceRequestDetailView" "detail"
    ∷ path "<int:pk>/interesses/" "ServiceRequestInterestsPartialView" "interests-partial"
    ∷ path "<int:pk>/interessar/" "InterestCreateView" "interest-create"
    ∷ path "<int:pk>/encerrar/" "EndRequestView" "end"
    ∷ path "<int:pk>/cancelar/" "CancelRequestView" "cancel"
    ∷ path "interesse/<int:pk>/retirar/" "InterestWithdrawView" "interest-withdraw"
    ∷ path "interesse/<int:pk>/selecionar/" "SelectInterestView" "interest-select"
    ∷ []

abbrev pub chat_urls : List UrlPattern
chat_urls =
    path "<int:interest_id>/" "ConversationDetailView" "detail"
    ∷ path "<int:interest_id>/bloquear/" "BlockUserView" "block"
    ∷ []

abbrev pub reviews_urls : List UrlPattern
reviews_urls =
    path "<int:interest_id>/" "ConfirmationDetailView" "confirmation-detail"
    ∷ path "<int:interest_id>/confirmar/" "ConfirmServiceView" "confirm"
    ∷ path "<int:interest_id>/avaliar/" "ReviewCreateView" "review-create"
    ∷ path "avaliacao/<int:pk>/contestar/" "ReviewContestView" "review-contest"
    ∷ []

abbrev pub moderation_urls : List UrlPattern
moderation_urls =
    path "denunciar/<int:user_id>/" "ReportUserCreateView" "report-user"
    ∷ path "meus-casos/" "MyModerationCasesListView" "my-cases"
    ∷ path "caso/<int:pk>/recorrer/" "AppealCaseView" "appeal-case"
    ∷ path "verificacao/solicitar/" "VerificationRequestCreateView" "verification-request"
    ∷ []

abbrev pub subscriptions_urls : List UrlPattern
subscriptions_urls =
    path "" "PlanView" "plan"
    ∷ path "assinar/" "SubscribeView" "subscribe"
    ∷ path "cancelar/" "CancelSubscriptionView" "cancel"
    ∷ path "boost/ativar/" "BoostActivateView" "boost-activate"
    ∷ path "webhook/mercadopago/" "MercadoPagoWebhookView" "mercadopago-webhook"
    ∷ []

-- `urlpatterns` of config/urls.py; the addresses of the static files, under `STATIC_URL`, are last.
unfoldable pub urlpatterns : List Entry
urlpatterns =
    include_package "admin/" "admin.site.urls"
      ∷ page (path "sw.js" "service_worker" "service-worker")
      ∷ include_package "accounts/" "allauth.urls"
      ∷ page (path "perfil/" "ProfileHubView" "profile-hub")
      ∷ page (
          path "perfil/notificacoes/" "NotificationPreferenceUpdateView" "notification-preferences")
      ∷ page (path "perfil/push/inscrever/" "PushSubscriptionCreateView" "push-subscribe")
      ∷ include "profissional/" "professionals" professionals_urls
    ++ include "contratante/" "clients" clients_urls
    ++ include "chamados/" "requests" requests_urls
    ++ include "conversa/" "chat" chat_urls
    ++ include "avaliacoes/" "reviews" reviews_urls
    ++ include "moderacao/" "moderation" moderation_urls
    ++ include "assinatura/" "subscriptions" subscriptions_urls
    ++ (page (path "" "HomeView" "home") ∷ include_package "static/" "staticfiles_urlpatterns" ∷ [])

-- What answers a path: a view with its arguments, or another package. `has_route` tells whether the
-- package has a route for the path.
pub data Match : Type 0 where
  view_match : String → List ℕ → Match
  external_match : String → Match

module _ (has_route : String → List ℕ → Bool) where
  abbrev pub matches : Entry → List ℕ → Option Match
  matches (page p) s = Option.map (λ args. view_match p.view args) (fits p.route s)
  matches (external route name) s = elim (fits route s) [
    | none ↦ none
    | some args ↦ if has_route name s then some (external_match name) else none
  ]

  abbrev pub or_else : Option Match → Option Match → Option Match
  or_else none rest = rest
  or_else (some m) rest = some m

  unfoldable pub resolve : List Entry → List ℕ → Option Match
  resolve [] s = none
  resolve (e ∷ es) s = or_else (matches e s) (resolve es s)

-- The page that a name stands for.
unfoldable pub find : List Entry → String → Option UrlPattern
find [] name = none
find (page p ∷ es) name = if str_eq p.name name then some p else find es name
find (external route mount ∷ es) name = find es name

abbrev pub spell_page : Option UrlPattern → List ℕ → Option (List ℕ)
spell_page none args = none
spell_page (some p) args = spell p.route args

-- `reverse(name, args=args)`
unfoldable pub reverse : List Entry → String → List ℕ → Option (List ℕ)
reverse es name args = spell_page (find es name) args
