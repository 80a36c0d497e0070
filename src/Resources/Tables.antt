-- ===== src/Resources/Tables.antt =====
-- What the resources view is configured to show (src/main/resources/web-data/js/configuration.js).
-- The callbacks, units and formats of the charts are left out.
pub mod Sections
use dyn_dco.Base.{ℕ, ◌*◌, String, List, [], ◌∷◌, Bool, true, false}
use dyn_dco.Resources.Registry.{Config}

abbrev pub interval_charts : ℕ
interval_charts = 3000

abbrev pub interval_statistics : ℕ
interval_statistics = 6000

abbrev pub interval_estimation : ℕ
interval_estimation = 20 * 1000

abbrev pub interval_logs : ℕ
interval_logs = 2000

abbrev statistics_boxes : List String
statistics_boxes =
    "infrastructureStatBox" ∷ "computationStatBox" ∷ "graphStatBox" ∷ "estimationStatBox" ∷ []

abbrev logs_boxes : List String
logs_boxes = "logBox" ∷ []

abbrev pub nodecharts_boxes : List String
nodecharts_boxes = "chartZoomer" ∷ []

abbrev pub workercharts_boxes : List String
workercharts_boxes = "chartZoomer" ∷ []

abbrev nostart_boxes : List String
nostart_boxes =
    "chartZoomer" ∷ "logTitle" ∷ "logBox" ∷ "signalCollectTitle" ∷ "heartbeatMessagesReceivedChart"
    ∷ "messagesSentChart" ∷ "messagesReceivedChart" ∷ "signalMessagesReceivedChart"
    ∷ "signalOperationsExecuted" ∷ "collectOperationsExecuted" ∷ "toCollectSizeChart"
    ∷ "toSignalSizeChart" ∷ "infrastructureTitle" ∷ "jmx_system_loadChart" ∷ "jmx_process_timeChart"
    ∷ "jmx_process_loadChart" ∷ "jmx_swap_totalChart" ∷ "jmx_swap_freeChart" ∷ "jmx_mem_totalChart"
    ∷ "jmx_mem_freeChart" ∷ "jmx_commited_vmsChart" ∷ "runtime_mem_freeChart"
    ∷ "runtime_mem_maxChart" ∷ "runtime_mem_totalChart" ∷ []

abbrev noconvergence_boxes : List String
noconvergence_boxes =
    "chartZoomer" ∷ "signalCollectTitle" ∷ "messagesSentChart" ∷ "messagesReceivedChart"
    ∷ "infrastructureTitle" ∷ "jmx_system_loadChart" ∷ "jmx_process_timeChart"
    ∷ "jmx_process_loadChart" ∷ []

abbrev estimation_boxes : List String
estimation_boxes =
    "chartZoomer" ∷ "estimationStatBox" ∷ "infrastructureTitle" ∷ "runtime_mem_freeChart"
    ∷ "runtime_mem_maxChart" ∷ "runtime_mem_totalChart" ∷ []

abbrev crash_boxes : List String
crash_boxes =
    "chartZoomer" ∷ "logTitle" ∷ "logBox" ∷ "infrastructureTitle" ∷ "jmx_mem_freeChart"
    ∷ "runtime_mem_freeChart" ∷ "runtime_mem_maxChart" ∷ "runtime_mem_totalChart" ∷ []

abbrev slow_boxes : List String
slow_boxes =
    "chartZoomer" ∷ "infrastructureTitle" ∷ "jmx_system_loadChart" ∷ "jmx_process_timeChart"
    ∷ "jmx_process_loadChart" ∷ "jmx_swap_totalChart" ∷ "jmx_swap_freeChart" ∷ "jmx_mem_totalChart"
    ∷ "jmx_mem_freeChart" ∷ "jmx_commited_vmsChart" ∷ "runtime_mem_freeChart"
    ∷ "runtime_mem_maxChart" ∷ "runtime_mem_totalChart" ∷ []

-- `resourceBoxes`, with the boxes of the charts of nodes and of workers that are there already.
abbrev pub resource_boxes : List String → List String → List (String × List String)
resource_boxes node_charts worker_charts =
    ("statistics", statistics_boxes)
    ∷ ("logs", logs_boxes)
    ∷ ("nodecharts", node_charts)
    ∷ ("workercharts", worker_charts)
    ∷ ("nostart", nostart_boxes)
    ∷ ("noconvergence", noconvergence_boxes)
    ∷ ("estimation", estimation_boxes)
    ∷ ("crash", crash_boxes)
    ∷ ("slow", slow_boxes)
    ∷ []

abbrev shown : String → Config
shown name = record { json_name = name; skip = false }

abbrev skipped : String → Config
skipped name = record { json_name = name; skip = true }

-- `chartConfigWorkers`
abbrev pub chart_config_workers : List Config
chart_config_workers =
    shown "messagesSent"
    ∷ shown "messagesSentToNodes"
    ∷ shown "messagesSentToWorkers"
    ∷ shown "messagesSentToCoordinator"
    ∷ shown "messagesSentToOthers"
    ∷ shown "messagesReceived"
    ∷ shown "signalMessagesReceived"
    ∷ shown "otherMessagesReceived"
    ∷ shown "requestMessagesReceived"
    ∷ shown "continueMessagesReceived"
    ∷ shown "bulkSignalMessagesReceived"
    ∷ shown "heartbeatMessagesReceived"
    ∷ shown "receiveTimeoutMessagesReceived"
    ∷ shown "outgoingEdgesAdded"
    ∷ shown "outgoingEdgesRemoved"
    ∷ shown "numberOfOutgoingEdges"
    ∷ shown "verticesRemoved"
    ∷ shown "verticesAdded"
    ∷ shown "numberOfVertices"
    ∷ shown "signalOperationsExecuted"
    ∷ shown "collectOperationsExecuted"
    ∷ shown "toCollectSize"
    ∷ shown "toSignalSize"
    ∷ skipped "workerId"
    ∷ []

-- `chartConfigNodes`
abbrev pub chart_config_nodes : List Config
chart_config_nodes =
    shown "runtime_cores"
    ∷ shown "jmx_system_load"
    ∷ shown "jmx_system_load_node"
    ∷ shown "jmx_process_time"
    ∷ shown "jmx_process_time_node"
    ∷ shown "jmx_process_load"
    ∷ shown "jmx_process_load_node"
    ∷ shown "jmx_swap_free"
    ∷ shown "jmx_swap_total"
    ∷ shown "jmx_mem_total"
    ∷ shown "jmx_mem_free"
    ∷ shown "jmx_committed_vms"
    ∷ shown "runtime_mem_max"
    ∷ shown "runtime_mem_free"
    ∷ shown "runtime_mem_total"
    ∷ skipped "os"
    ∷ skipped "nodeId"
    ∷ []

-- `hideInfrastructureItems`
abbrev pub hide_infrastructure_items : List String
hide_infrastructure_items =
    "sun.os.patch.level" ∷ "java.vendor.url.bug" ∷ "sun.cpu.isalist" ∷ "gopherProxySet"
    ∷ "java.awt.graphicsenv" ∷ "java.awt.printerjob" ∷ "awt.toolkit" ∷ []
