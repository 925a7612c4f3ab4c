-- ===== src/Tests/Front.antt =====
-- A request that the API does not know, and its answer.
use burrowcode.Base.{refl}
use burrowcode.Golang.Maps.{lookup}
use burrowcode.Os.Gives.{Gives}
use burrowcode.Api.Front.{serve_front}
use burrowcode.Api.Front.Cors.{IsNeutral, IsShared, serve_front-IsShared}
use burrowcode.Tests.Fixture.{host}
use burrowcode.Tests.Http.{posted}
use burrowcode.Tests.Pipeline.{deployment}

neutral : IsNeutral deployment.api
unfolding lookup
neutral = record { errors = λ e. refl; unknown_path = refl; moves = λ path. refl }

serve_front-IsShared_example :
    Gives {m = host} IsShared (serve_front deployment.api "DELETE" "/v2" posted)
serve_front-IsShared_example = serve_front-IsShared deployment.api neutral "DELETE" "/v2" posted
