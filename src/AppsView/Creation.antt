-- ===== src/AppsView/Creation.antt =====
-- `CreateAppModal` of frontend/src/views/apps-view.tsx.
pub mod Flow
use nova_server_manager.Common.{
  ℕ, Bool, true, false, ◌||◌, String, str_eq, Text, codes, Option, none, some, List, [], ◌∷◌,
  if◌then◌else◌,
}
use nova_server_manager.Types.{NovaApp, UploadProgress}
use nova_server_manager.Client.Json.{File}
use nova_server_manager.Client.Message.{
  service_created, app_creation_failed, app_with_source_created, upload_failed, app_created,
}
use nova_server_manager.Client.Error.{Error, message_of}
use nova_server_manager.Client.Request.{NewApp, create_app, upload_source, Uploaded}
use nova_server_manager.Client.Effect.{
  Prog, done, await, success, error, called, created as created_callback, request, update, notify,
  signal, settle, skip, catch, finally, ◌>>=◌, ◌>>◌,
}
use nova_server_manager.AppDetail.{needs_no_source}
use nova_server_manager.Environment.{parse_environment}

pub data FormStep : Type 0 where
  details source : FormStep

pub record Creation : Type 0 where
  pub step : FormStep
  pub busy : Bool
  pub created : Option NovaApp
  pub progress : Option UploadProgress
  pub file : Option File
  pub app_type : String
  pub internal_port : ℕ

abbrev pub initial : Creation
initial = record {
  step = details;
  busy = false;
  created = none;
  progress = none;
  file = none;
  app_type = "nextjs";
  internal_port = 3000;
}

-- `defaultPorts`; the types are those of `appTypes`.
unfoldable pub default_port : String → ℕ
default_port type =
    if str_eq type "nextjs" || str_eq type "nodejs" || str_eq type "docker"
    then 3000
    else if str_eq type "django" || str_eq type "fastapi" || str_eq type "flask"
    then 8000
    else if str_eq type "php" || str_eq type "static"
    then 80
    else if str_eq type "postgres"
    then 5432
    else 27017

-- The select of the application's type.
unfoldable pub choose_type : String → Prog Creation (Unit {0})
choose_type type = update (λ s. record s { app_type = type; internal_port = default_port type })

-- The form as it is read, with the text of the environment variables.
pub record AppForm : Type 0 where
  pub name : Text
  pub display_name : Text
  pub app_type : Text
  pub internal_port : ℕ
  pub start_command : Text
  pub image : Text
  pub environment : Text

unfoldable pub new_app : AppForm → NewApp
new_app form = record {
  name = form.name;
  display_name = form.display_name;
  app_type = form.app_type;
  internal_port = form.internal_port;
  start_command = form.start_command;
  image = form.image;
  environment = parse_environment form.environment;
}

-- What `create` does with the application that the server made.
proceed : String → NovaApp → Prog Creation (Unit {0})
proceed app_type app =
    if needs_no_source app_type
    then (do notify service_created success; signal (called (created_callback app)))
    else update (λ s. record s { created = some app; step = source })

unfoldable pub create : Creation → AppForm → Prog Creation (Unit {0})
unfolding proceed
create c form = do
  update (λ s. record s { busy = true })
  finally
      (catch (do app ← request (create_app (new_app form)); proceed c.app_type app)
        (λ e. notify (message_of e app_creation_failed) error))
      (λ p. update (λ s. record s { busy = false }) >> p)

-- The reports of the upload, the latest last.
deliver : List UploadProgress → Creation → Creation
deliver [] s = s
deliver (p ∷ ps) s = deliver ps (record s { progress = some p })

upload_file : ℕ → List UploadProgress → File → Prog Creation Uploaded
upload_file app_id reports file =
    await (upload_source app_id file) (λ r. update (deliver reports) >> settle r)

-- `finish` for an application and a file; an error ends it before `onCreated`. Whether it goes on
-- is the value.
upload_first : List UploadProgress → NovaApp → Option File → Prog Creation Bool
upload_first reports app none = notify app_created success >>= (λ _. done true)
upload_first reports app (some file) = do
  update (λ s. record s { busy = true })
  catch (do upload_file app.id reports file; notify app_with_source_created success; done true)
      (λ e. do
        notify (message_of e upload_failed) error
        update (λ s. record s { busy = false })
        done false)

finish_app : List UploadProgress → Option NovaApp → Option File → Prog Creation (Unit {0})
finish_app reports none file = skip
finish_app reports (some app) file = do
  goes_on ← upload_first reports app file
  if goes_on then signal (called (created_callback app)) else skip

unfoldable pub finish : Creation → List UploadProgress → Prog Creation (Unit {0})
unfolding finish_app upload_first upload_file deliver
finish c reports = finish_app reports c.created c.file

-- The fields of the port and of the file.
unfoldable pub choose_port : ℕ → Prog Creation (Unit {0})
choose_port port = update (λ s. record s { internal_port = port })

unfoldable pub choose_file : Option File → Prog Creation (Unit {0})
choose_file file = update (λ s. record s { file = file })

-- The button that leaves the upload for later.
unfoldable pub later : Creation → Prog Creation (Unit {0})
later c = elim c.created [ none ↦ skip | some app ↦ signal (called (created_callback app)) ]
