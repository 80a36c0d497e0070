-- ===== src/Lib.antt =====
-- The web console of a Signal/Collect computation, as DynDCO keeps it: the scripts of the pages that
-- show a running computation and control it (src/main/resources/web-data/js).
--
-- The parts and how they interact. One WebSocket connects a page to the server. The main module
-- (main.js) sends orders over it, one per provider at a time, each behind a timer, and hands every
-- message of the server to the modules that require its provider. The Graph module (graph.js,
-- graph-drawing.js) draws the vertices and edges that it ordered; the State module (state.js) follows the
-- state of the computation, switches the periodic refresh of the graph on and off, and has the control
-- buttons; the Log module (resources-log.js) lists log messages; the BreakConditions module
-- (breakconditions.js) sets conditions at which the computation stops; the charts (linechart.js,
-- util.js) show statistics. The layout (layout.js) shows a view with its panel, and messages. All modules read the settings, which main.js keeps in the hash of the
-- address as the difference to the defaults.
--
-- The files:
-- - Base, with Base/Tests, Base/Lists and Base/Objects: tests on numbers and texts, lists, and objects
--   that are enumerated. An object that is only read and written by key is a Table, a function.
-- - Graph: graph-drawing.js. Graph/Types has the variables of GraphD3 as the record Canvas. The lookup
--   tables vertexRefs and edgeRefs are Tables; circles are the circles on the page, by the id of the
--   vertex that each is bound to. Graph/VertexLoops and Graph/EdgeLoops are the loops of onmessage
--   over the vertices and edges of a message, Graph/Compact the loops of removeVerticesFromCanvas,
--   Graph/Canvas the operations, Graph/Message the handler onmessage, and Graph/Session a life of the
--   canvas. Graph/Pointer has the mouse over the canvas with its timers, Graph/Queries the orders of
--   the buttons, given to the console of Console/Orders, Graph/Design the metrics behind the looks
--   of the vertices, Graph/Exposed which vertex the panel of the exposition
--   shows, Graph/Status the text behind the graph and its timers, and Graph/Storage the push of
--   VertexStorageAgent, which no module calls. Their children hold the proofs.
-- - GraphPanel: the selection of vertices with the mouse in graph.js, with its buttons and keys, and
--   the choice of the number of vertices.
--   GraphPanel/Controls has the limit of vertices, the input for a text and the border that is dragged.
--   GraphPanel/Exposition is the exposition of a vertex: the tree that jsonIntoTree makes, and its rows.
-- - BreakConditions: breakconditions.js and its texts in strings.js. BreakConditions/Form has the form
--   for a new condition and the order that it sends, BreakConditions/Conditions the list of
--   conditions,
--   BreakConditions/Controls what these order from the console.
-- - Layout: layout.js. Layout/Panel has the views and the sections, with what the settings keep of them;
--   Layout/Popup has the pop-up for messages, with the animations of jQuery as a queue.
-- - Console: main.js. Console/Orders has scc.order, scc.resetOrders and the timers, Console/Dispatch
--   the handlers of the socket, Console/Session a life of the console, Console/Pages the modules of a
--   page and what they order when the connection opens.
-- - Settings: the class Settings of main.js. Settings/Store has get, set and hideDefaults, Settings/Hash
--   the settings in the address, with JSON and the browser as parameters (Browser).
-- - State: state.js and the state texts of strings.js. State/Handler has the handlers; onmessage is
--   cut into the steps that its comments name, and returns the view, the calls of other parts, and
--   whether it came to its end or threw.
-- - Log: resources-log.js. Log/Fragments groups messages, Log/Box handles them, Log/Filters has the
--   buttons.
-- - Resources: the sums and durations of util.js and linechart.js, and update of LineChart in
--   Resources/Chart; Resources/Window has zooming, moving and drawing of a chart. Resources/Sections has
--   resources.js, the sections of the view and their boxes; Resources/Registry and Resources/Updates have
--   resources-charts.js, the charts and the handlers.
--   Resources/Setup has setup of a chart,
--   with the names in Resources/Info, and Resources/Memory the memory of the nodes.
--   Resources/Tables has the lists of configuration.js, and Resources/Configuration the page of the
--   parameters of resources-configuration.js.
--
-- How the code is modelled. State is passed explicitly, one record for the variables of a module; a
-- handler returns the new record and, where it calls other parts, the list of those calls. A handler
-- that can throw returns whether it completed. Calls of jQuery and d3 appear as the change that the
-- scripts rely on: a selection of circles by a test on their data, text of an element, a class.
-- Numbers are natural numbers where the script counts or keeps milliseconds; numbers that the server
-- sends and the script only compares are a parameter (Numbers in Graph/Types), with parseFloat and
-- d3's median. The factor 1.2 of the State module is kept as an exact fraction.
--
-- No fuel is needed: every loop of the scripts goes over an array or an object, and is structural
-- recursion here. The loops of removeVerticesFromCanvas, whose index steps back after a splice, are the
-- recursion in which the index stays where it is; Graph/Compact/Loop has them also as they run, on the
-- length of the array as fuel, which is enough.
--
-- What is not modelled: layout and drawing by d3, transitions (a circle on its way out counts as
-- gone), HTML texts but those of the rows of an exposition, the reconnecting socket itself, the tour (intro.js), and
-- the parts written in Scala and Java.
pub mod Base
pub mod BreakConditions
pub mod Console
pub mod Graph
pub mod GraphPanel
pub mod Layout
pub mod Log
pub mod Resources
pub mod Settings
pub mod State
