-- ===== src/Storage/Attach/Runs.antt =====
-- Whole runs of `ContainerAttachStateTransitionHandler.execute` on the shipped statechart.
use ontobdc_core.Prelude.{ℕ, String, ◌≡◌, none, some}
use ontobdc_core.Outcome.{Exception, ok}
use ontobdc_core.Yaml.{Yaml}
use ontobdc_core.Process.{Process}
use ontobdc_core.Worker.Sismic.{Sismic, documented}
use ontobdc_core.Worker.Run.{work}
use ontobdc_core.Storage.Attach.{Surroundings, handler, start}
use ontobdc_core.Storage.Attach.Chart.{document, chart}
use ontobdc_core.Storage.Attach.State.{ContainerAttachProcessState, container_attached, states}
use ontobdc_core.Storage.Attach.Ahead.{all_values}
use ontobdc_core.Storage.Attach.Links.{AllDeliver, At}

module _ {E : Type 0} (world : Surroundings E) where
  module _ (all : AllDeliver world) (code_error : Exception → Exception)
      (repr : Yaml → String) where
    abbrev EndsAt : ℕ → E → ContainerAttachProcessState → Type 0
    EndsAt fuel env s =
        (p : Process ContainerAttachProcessState E) × (work states (handler world)
            (documented (handler world) code_error chart) repr document fuel none (start env)
          ≡ some (ok (all_values s), p))
        × At world container_attached p
