-- ===== src/Api/Posts.antt =====
-- command_api.py `do_POST`: the response and what was done.
use shalotrack_gateway.Shared.{◌≡◌, [], false, Option, none, some}
use shalotrack_gateway.Shared.Text.{Text, codes}
use shalotrack_gateway.Shared.Dict.{Dict, get, text_key}
use shalotrack_gateway.Shared.Attempt.{Attempt}
use shalotrack_gateway.Api.Params.{Python, loaded}
use shalotrack_gateway.Api.{Request, Response, Service}
use shalotrack_gateway.Api.Effects.{Effects}
use shalotrack_gateway.Api.Answers.{Commanded, is_success}

-- What a request's field is read as: a text without the white space around it, or nothing.
pub data Reads (Value : Type 0) (python : Python Value) : Option Value → Text → Type 0 where
  absent : Reads Value python none []
  text :
      (value : Value) (t : Text)
      → python.text_of value ≡ some t
      → Reads Value python (some value) (python.strip t)

-- The IMEI and the command that the body of a request names, the command in lower case.
pub record Names (Value : Type 0) (python : Python Value) (request : Request) (imei command : Text)
    : Type 0 where
  pub value : Value
  pub body : Dict Text Value
  pub word : Text
  pub loads : python.loads request.body ≡ loaded value
  pub is_object : python.object_of value ≡ some body
  pub imei_read : Reads Value python (get (codes "imei") body) imei
  pub word_read : Reads Value python (get (codes "command") body) word
  pub lowered : python.lower word ≡ command

-- A request is answered with no success and nothing is written, or its command is carried out for the
-- device that it names.
pub data Posted (Value : Type 0) (python : Python Value) (request : Request) (s : Service)
    : Response × Service → Type 0 where
  unheard :
      (r : Response) (s' : Service)
      → is_success r ≡ false
      → s'.world ≡ s.world
      → s'.monitor ≡ s.monitor
      → Posted Value python request s (r, s')
  heard :
      (imei command : Text) (out : Response × Service)
      → Names Value python request imei command
      → Commanded s imei command out
      → Posted Value python request s out
