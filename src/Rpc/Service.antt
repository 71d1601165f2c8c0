-- ===== src/Rpc/Service.antt =====
-- What the server knows of its services (src-endpoint/fast_server.cc, inc/fast_server.h). Protobuf is
-- an argument: reading a MetaDataOfRequest and a request, finding a method.
use light_rpc.Prelude.{
  ℕ, Bool, true, false, ◌&&◌, List, [], ◌∷◌, Option, none, some, ◌==◌, if◌then◌else◌,
}

pub record MetaDataOfRequest : Type 0 where
  pub rpc_id : ℕ
  pub service_name : List ℕ
  pub method_name : List ℕ
  pub attachment_size : ℕ

-- Where no case is left over, a method has its service, and a request its method.
pub record Protobuf (Service Method Request : Type 0) : Type 0 where
  pub parse_meta : List ℕ → Option MetaDataOfRequest
  pub find_method : Service → List ℕ → Option Method
  pub parse_request : Method → List ℕ → Option Request

-- Names are strings of bytes.
unfoldable pub same_name : List ℕ → List ℕ → Bool
same_name [] [] = true
same_name [] (y ∷ ys) = false
same_name (x ∷ xs) [] = false
same_name (x ∷ xs) (y ∷ ys) = x == y && same_name xs ys

pub data ServiceOwnership : Type 0 where
  server_owns_service server_doesnt_own_service : ServiceOwnership

pub record ServiceInfo (Service : Type 0) : Type 0 where
  pub ownership : ServiceOwnership
  pub service : Service

module _ {Service : Type 0} where
  unfoldable pub find_service :
      List ℕ → List (List ℕ × ServiceInfo Service) → Option (ServiceInfo Service)
  find_service name [] = none
  find_service name ((n, info) ∷ services) =
      let rest = find_service name services in if same_name n name then some info else rest

  abbrev pub add_new :
      Option (ServiceInfo Service)
      → List ℕ
      → ServiceInfo Service
      → List (List ℕ × ServiceInfo Service)
      → Option (List (List ℕ × ServiceInfo Service))
  add_new none name info services = some ((name, info) ∷ services)
  add_new (some other) name info services = none

  -- `none` where the CHECK fails that the name is new.
  unfoldable pub add_service :
      ServiceOwnership
      → List ℕ
      → Service
      → List (List ℕ × ServiceInfo Service)
      → Option (List (List ℕ × ServiceInfo Service))
  unfolding find_service same_name
  add_service ownership name service services =
      add_new (find_service name services) name
        (record { ownership = ownership; service = service }) services
