-- ===== src/Lib.antt =====
-- The administration interface of ModelShelf (packages/ui), modelled and verified.
--
-- ModelShelf is a shelf of model files: a server downloads models from hubs as tasks, and the
-- browser application in packages/ui shows these tasks and starts new ones. The application keeps
-- its state in React components, which change it in event handlers, in effects and in the replies to
-- requests. A component's state is a record here; each handler, effect or reply is a function on
-- it; which event comes when is an argument, or a constructor of an inductive type `Reach` of the
-- states that can be reached.
--
-- The files and the code that they are about, under packages/ui/src:
--   Common        lists, texts, sets of texts, scanning of texts and the parameters of an address
--   Task          types.ts: a download task as the server reports it
--   Format        api.ts: formatBytes, formatRate, formatDuration
--   Progress      taskProgress.ts: the steps of a task and the progress of the current one
--   Api           api.ts: api and its errors (Api/Plain: the text of an error page)
--   Queue         pages/TasksPage.tsx: the filters in the address (Queue/Filters), loading and
--                 deletion (Queue/Page), the order of the queue (Queue/Order), the requests to
--                 change it by a drop or by an arrow key (Queue/Reorder), the texts in the cells of
--                 a row (Queue/Cells), and the columns and lines of the page (Queue/View)
--   NewTask       pages/NewTaskPage.tsx: the form (NewTask/Form), the estimate (NewTask/Estimate),
--                 what an abort of its lookup does (NewTask/Aborts), a lookup with its timer from
--                 its start to its end (NewTask/Lookup), the files that are chosen and their sizes
--                 (NewTask/Review), the controls of the choice with the tree (NewTask/Choices), the
--                 texts and the button of the review (NewTask/Panel), the controls of the network
--                 routing (NewTask/Routing), the lines of help (NewTask/Help), the searches for
--                 models and revisions (NewTask/Search) and the request that starts the download
--                 (NewTask/Submit)
--   Artifacts     pages/ArtifactsPage.tsx: the quoting of an argument (Artifacts/Shell), the command
--                 and the configuration (Artifacts/Command), the list (Artifacts/Shelf), the filters
--                 in the address and the requests for the list (Artifacts/Filters), the cards
--                 (Artifacts/Cards), the details with their alias and storage (Artifacts/Details)
--                 and what their dialog shows (Artifacts/Details/View)
--   FileTree      components/FileTree.tsx: the tree of a list of paths (FileTree/Build), its filter
--                 and its tick boxes (FileTree/Show), the tree without a choice (FileTree/Static)
--   Session       App.tsx and pages/LoginPage.tsx: the pages that need a login, the login, the logout
--   Controls      components/DeleteConfirm.tsx, ScheduleControl.tsx, ResumeControl.tsx, datetime.ts
--   TaskDetail    pages/TaskPage.tsx: polling, actions, buttons and deletion, the texts
--                 (TaskDetail/Facts), the dialog with its steps and notes (TaskDetail/Frame) and the
--                 confirmation (TaskDetail/Confirmation)
--   Source        source.ts: the address of a model at its source
--   Fields        components/ui.tsx and SearchField.tsx: the keys of a selection field, the button
--                 that copies, the texts of a status and of a search field
--   Guide         pages/IntegrationPage.tsx: the ids of the guide's headings, its outline, its load,
--                 and its code blocks (Guide/Blocks)
--   Selection     selection.ts: the summary of a selection of files
--   Theme         theme.ts and components/ThemePicker.tsx: the theme
--   Tests         runs on concrete inputs
-- The module below a component's module that is not in this list holds proofs about it.
--
-- What the code takes from the browser or from a library is an argument of the definitions: the
-- comparison of two texts in the browser's locale, `new URL`, `JSON.parse` and `JSON.stringify`, the
-- arithmetic of doubles (the record `Doubles`, with the laws that are relied on), `Number` on the
-- text of an offset, dates (the record `Dates`), the normal form NFKD and the case of a text, and which
-- characters are letters or numbers.
--
-- Numbers: sizes in bytes, counts and positions are whole numbers below 2^53 in the code and natural
-- numbers here; seconds and rates, which may have a fraction, are counted in thousandths; an instant
-- is counted in milliseconds from the earliest one that a `Date` holds. A text is a sequence of
-- characters; the lengths that are cut (4,000 of an error's reason, 12 of a revision) count UTF-16
-- units in the code. The decimal text of a number has the number itself as fuel, which is more than
-- it has digits; all other functions are structurally recursive and need none.
--
-- Not modelled: the markup and its styles, the components copied from the beUI registry, the
-- markdown parser and the sanitizer of the integration page, the notes that the page shows for a
-- while, and the server and the command-line client in packages/server, packages/core and
-- packages/client, which are written in other languages.
pub mod Common
pub mod Task
pub mod Format
pub mod Progress
pub mod Queue
pub mod NewTask
pub mod Controls
pub mod TaskDetail
pub mod Api
pub mod Artifacts
pub mod Source
pub mod Theme
pub mod FileTree
pub mod Session
pub mod Guide
pub mod Fields
pub mod Selection
mod Tests
